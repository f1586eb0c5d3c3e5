-- ===== src/PlanService/Rejections.antt =====
-- src/zero/app/plan_service.py: `reject_revision`, as its checks and its transaction.
use zero_agent_dev_telegram.Common.{Option, none, some}
use zero_agent_dev_telegram.Domain.Authorization.{Permission}
use zero_agent_dev_telegram.Domain.Audit.{Operation, Target, AuditResult}
use zero_agent_dev_telegram.Domain.Plans.{
  PlanState, RevisionState, ApprovalResult, Plan, PlanRevision, PlanApproval, is_valid_transition,
}
use zero_agent_dev_telegram.Domain.Errors.{Error}
use zero_agent_dev_telegram.Exec.{
  Exec, pure, guard, ◌>>=◌, ◌>>◌, query, generate_token, transaction,
}
use zero_agent_dev_telegram.Repository.Audit.{record_audit}
use zero_agent_dev_telegram.Repository.Plan.{
  update_plan_state, update_revision_state, insert_approval, get_approval_for_revision,
}
use zero_agent_dev_telegram.PlanService.Verdicts.{Verdict, read_current, evidence}

pub data RejectionClaim : Type 0 where
  stored : PlanApproval → RejectionClaim
  fresh : Plan → PlanRevision → PlanApproval → RejectionClaim

abbrev rejection_of : Verdict → Plan → PlanRevision → Option PlanApproval → Exec RejectionClaim
rejection_of r plan revision (some rejection) = pure (RejectionClaim.stored rejection)
rejection_of r plan revision none = do
  guard (is_valid_transition plan.current_state PlanState.rejected) Error.invalid_plan_transition
  approval_id ← generate_token
  pure (
      RejectionClaim.fresh plan revision
        (evidence approval_id ApprovalResult.rejected r plan revision))

unfoldable pub prepare_rejection : Verdict → Exec RejectionClaim
unfolding read_current generate_token get_approval_for_revision
prepare_rejection r = do
  current ← read_current Permission.plan_reject r
  existing ← query (get_approval_for_revision current.1.id ApprovalResult.rejected)
  rejection_of r current.0 current.1 existing

unfoldable pub commit_rejection : Verdict → RejectionClaim → Exec PlanApproval
unfolding transaction insert_approval update_revision_state update_plan_state record_audit
commit_rejection r (RejectionClaim.stored rejection) = pure rejection
commit_rejection r (RejectionClaim.fresh plan revision approval) = transaction do
  insert_approval approval
  update_revision_state revision.id RevisionState.rejected
  update_plan_state plan.id PlanState.rejected none
  record_audit plan.project_id r.actor_id r.source Operation.plan_reject
      (Target.plan_revision revision.id) AuditResult.success (some plan.id)
  pure approval

unfoldable pub reject_revision : Verdict → Exec PlanApproval
reject_revision r = do claim ← prepare_rejection r; commit_rejection r claim
