-- ===== src/PlanService/Proposals.antt =====
-- src/zero/app/plan_service.py: `propose_revision`.
use zero_agent_dev_telegram.Common.{suc, Bool, true, false, some}
use zero_agent_dev_telegram.Domain.Identity.{UserId, ProjectId}
use zero_agent_dev_telegram.Domain.Authorization.{Permission}
use zero_agent_dev_telegram.Domain.Audit.{Source, Operation, Target, AuditResult}
use zero_agent_dev_telegram.Domain.Plans.{
  PlanId, PlanState, RevisionState, PlanRevision, PlanRevisionContent,
}
use zero_agent_dev_telegram.Domain.Errors.{Error}
use zero_agent_dev_telegram.Exec.{Exec, pure, guard, ◌>>=◌, ◌>>◌, generate_token, transaction}
use zero_agent_dev_telegram.Authorization.{require_permission}
use zero_agent_dev_telegram.Repository.Audit.{record_audit}
use zero_agent_dev_telegram.Repository.Plan.{get_plan, update_plan_state, insert_revision}
use zero_agent_dev_telegram.PlanService.Content.{validate_revision_content}

abbrev pub accepts_proposal : PlanState → Bool
accepts_proposal PlanState.draft = true
accepts_proposal PlanState.proposed = true
accepts_proposal _ = false

pub record Proposal : Type 0 where
  pub plan_id : PlanId
  pub project_id : ProjectId
  pub actor_id : UserId
  pub content : PlanRevisionContent
  pub source : Source

-- `propose_revision` up to its transaction: the checks, and the new revision. The new plan state is
-- `proposed` from either state that is accepted.
unfoldable pub prepare_proposal : Proposal → Exec PlanRevision
unfolding generate_token get_plan validate_revision_content
prepare_proposal r = do
  require_permission r.actor_id r.project_id Permission.plan_propose r.source
  plan ← get_plan r.plan_id (some r.project_id)
  validate_revision_content r.content plan.project_id
  guard (accepts_proposal plan.current_state) Error.invalid_plan_transition
  id ← generate_token
  pure (record {
    id = id;
    plan_id = plan.id;
    project_id = plan.project_id;
    revision_number = suc plan.current_revision_number;
    content = r.content;
    proposed_by = r.actor_id;
    state = RevisionState.proposed;
  })

unfoldable pub commit_proposal : Proposal → PlanRevision → Exec PlanRevision
unfolding transaction insert_revision update_plan_state record_audit
commit_proposal r revision = transaction do
  insert_revision revision
  update_plan_state revision.plan_id PlanState.proposed (some revision.revision_number)
  record_audit revision.project_id r.actor_id r.source Operation.plan_propose
      (Target.plan_revision revision.id) AuditResult.success (some revision.plan_id)
  pure revision

unfoldable pub propose_revision : Proposal → Exec PlanRevision
propose_revision r = do revision ← prepare_proposal r; commit_proposal r revision
