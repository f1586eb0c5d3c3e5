-- ===== src/PlanService/Verdicts.antt =====
-- src/zero/app/plan_service.py: what `approve_revision` and `reject_revision` share.
use zero_agent_dev_telegram.Common.{ℕ, Option, none, some, String, ◌==◌}
use zero_agent_dev_telegram.Domain.Identity.{UserId, ProjectId}
use zero_agent_dev_telegram.Domain.Authorization.{Permission}
use zero_agent_dev_telegram.Domain.Audit.{Source}
use zero_agent_dev_telegram.Domain.Plans.{PlanId, ApprovalResult, Plan, PlanRevision, PlanApproval}
use zero_agent_dev_telegram.Domain.Errors.{Error}
use zero_agent_dev_telegram.Exec.{Exec, pure, guard, ◌>>=◌, ◌>>◌}
use zero_agent_dev_telegram.Authorization.{require_permission}
use zero_agent_dev_telegram.Repository.Plan.{get_plan, get_current_revision}

-- The arguments that `approve_revision` and `reject_revision` share.
pub record Verdict : Type 0 where
  pub plan_id : PlanId
  pub project_id : ProjectId
  pub actor_id : UserId
  pub expected_revision_number : ℕ
  pub idempotency_key : String
  pub source : Source
  pub redacted_reason : Option String

-- What both methods read before they decide: the plan, at the expected revision.
unfoldable pub read_current : Permission → Verdict → Exec (Plan × PlanRevision)
unfolding get_plan get_current_revision
read_current permission r = do
  require_permission r.actor_id r.project_id permission r.source
  plan ← get_plan r.plan_id (some r.project_id)
  guard (r.expected_revision_number == plan.current_revision_number)
      (Error.stale_revision r.expected_revision_number plan.current_revision_number)
  revision ← get_current_revision r.plan_id none
  pure (plan, revision)

abbrev pub evidence : ℕ → ApprovalResult → Verdict → Plan → PlanRevision → PlanApproval
evidence id result r plan revision = record {
  id = id;
  plan_id = plan.id;
  revision_id = revision.id;
  project_id = plan.project_id;
  approved_by = r.actor_id;
  source = r.source;
  result = result;
  idempotency_key = r.idempotency_key;
  redacted_reason = r.redacted_reason;
}
