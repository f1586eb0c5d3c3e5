-- ===== src/PlanService/Approvals.antt =====
-- src/zero/app/plan_service.py: `approve_revision`, as its checks and its transaction.
use zero_agent_dev_telegram.Common.{Option, none, some}
use zero_agent_dev_telegram.Domain.Authorization.{Permission}
use zero_agent_dev_telegram.Domain.Audit.{Operation, Target, AuditResult}
use zero_agent_dev_telegram.Domain.Plans.{
  PlanState, RevisionState, ApprovalResult, Plan, PlanRevision, PlanApproval, PlanHandoff,
  is_valid_transition,
}
use zero_agent_dev_telegram.Domain.Errors.{Error}
use zero_agent_dev_telegram.Exec.{
  Exec, pure, or_raise, guard, ◌>>=◌, ◌>>◌, query, generate_token, transaction,
}
use zero_agent_dev_telegram.Repository.Audit.{record_audit}
use zero_agent_dev_telegram.Repository.Plan.{
  update_plan_state, update_revision_state, insert_approval, get_approval_for_revision,
  insert_handoff, get_handoff_for_revision,
}
use zero_agent_dev_telegram.PlanService.Verdicts.{Verdict, read_current, evidence}

-- The outcome of the checks that precede the transaction: the stored pair of an earlier approval,
-- or the records to store.
pub data ApprovalClaim : Type 0 where
  stored : PlanApproval → PlanHandoff → ApprovalClaim
  fresh : Plan → PlanRevision → PlanApproval → PlanHandoff → ApprovalClaim

abbrev stored_handoff : Error → PlanApproval → PlanRevision → Exec (PlanApproval × PlanHandoff)
stored_handoff missing approval revision = do
  row ← query (get_handoff_for_revision revision.id none)
  handoff ← or_raise missing row
  pure (approval, handoff)

abbrev new_claim : Verdict → Plan → PlanRevision → Exec ApprovalClaim
new_claim r plan revision = do
  guard (is_valid_transition plan.current_state PlanState.approved) Error.invalid_plan_transition
  approval_id ← generate_token
  handoff_id ← generate_token
  pure (
      ApprovalClaim.fresh plan revision
        (evidence approval_id ApprovalResult.approved r plan revision)
        (record {
          id = handoff_id;
          plan_id = plan.id;
          revision_id = revision.id;
          project_id = plan.project_id;
          approved_by = r.actor_id;
          execution_id = none;
        }))

abbrev claim_of : Verdict → Plan → PlanRevision → Option PlanApproval → Exec ApprovalClaim
claim_of r plan revision none = new_claim r plan revision
claim_of r plan revision (some approval) = do
  pair ← stored_handoff Error.assertion_error approval revision
  pure (ApprovalClaim.stored pair.0 pair.1)

unfoldable pub prepare_approval : Verdict → Exec ApprovalClaim
unfolding read_current generate_token get_approval_for_revision get_handoff_for_revision
prepare_approval r = do
  current ← read_current Permission.plan_approve r
  existing ← query (get_approval_for_revision current.1.id ApprovalResult.approved)
  claim_of r current.0 current.1 existing

-- The writes of an approval.
unfoldable pub store_approval :
    Verdict → Plan → PlanRevision → PlanApproval → PlanHandoff → Exec (PlanApproval × PlanHandoff)
unfolding insert_approval update_revision_state update_plan_state insert_handoff record_audit
store_approval r plan revision approval handoff = do
  insert_approval approval
  update_revision_state revision.id RevisionState.approved
  update_plan_state plan.id PlanState.approved none
  insert_handoff handoff
  record_audit plan.project_id r.actor_id r.source Operation.plan_approve
      (Target.plan_revision revision.id) AuditResult.success (some plan.id)
  pure (approval, handoff)

abbrev claim_or_store :
    Verdict
    → Plan
    → PlanRevision
    → PlanApproval
    → PlanHandoff
    → Option PlanApproval
    → Exec (PlanApproval × PlanHandoff)
claim_or_store r plan revision approval handoff none =
    store_approval r plan revision approval handoff
claim_or_store r plan revision approval handoff (some persisted) =
    stored_handoff Error.runtime_error persisted revision

-- The transaction of `approve_revision`, which looks for an approval once more.
unfoldable pub commit_approval : Verdict → ApprovalClaim → Exec (PlanApproval × PlanHandoff)
unfolding transaction store_approval get_approval_for_revision get_handoff_for_revision
commit_approval r (ApprovalClaim.stored approval handoff) = pure (approval, handoff)
commit_approval r (ApprovalClaim.fresh plan revision approval handoff) = transaction do
  persisted ← query (get_approval_for_revision revision.id ApprovalResult.approved)
  claim_or_store r plan revision approval handoff persisted

unfoldable pub approve_revision : Verdict → Exec (PlanApproval × PlanHandoff)
approve_revision r = do claim ← prepare_approval r; commit_approval r claim
