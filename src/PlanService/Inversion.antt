-- ===== src/PlanService/Inversion.antt =====
-- What a check of src/zero/app/plan_service.py that lets an approval through has found.
use zero_agent_dev_telegram.Common.{suc, ◌≡◌, arith, none, some, true}
use zero_agent_dev_telegram.Domain.Authorization.{Permission}
use zero_agent_dev_telegram.Domain.Plans.{
  PlanState, Plan, PlanRevision, PlanApproval, PlanHandoff, ApprovalResult, is_valid_transition,
}
use zero_agent_dev_telegram.Database.{Db, World}
use zero_agent_dev_telegram.Exec.{ok}
use zero_agent_dev_telegram.Authorization.Decision.{permitted, require_permission-refines-policy}
use zero_agent_dev_telegram.Repository.Plan.{find_plan, find_revision, get_approval_for_revision}
use zero_agent_dev_telegram.PlanService.Verdicts.{Verdict, evidence}
use zero_agent_dev_telegram.PlanService.Approvals.{ApprovalClaim, prepare_approval}

-- The plan that a verdict names, with its current revision. That the lookup by id alone finds the
-- plan too is the primary key of `plans`.
pub record IsCurrent (r : Verdict) (db : Db) (plan : Plan) (revision : PlanRevision) : Type 0 where
  pub scoped : find_plan r.plan_id (some r.project_id) db ≡ some plan
  pub keyed : find_plan r.plan_id none db ≡ some plan
  pub at_revision : find_revision r.plan_id plan.current_revision_number none db ≡ some revision
  pub expected : r.expected_revision_number ≡ plan.current_revision_number

abbrev pub HasPlanKey : Verdict → Db → Type 0
HasPlanKey r db =
    (p : Plan)
    → find_plan r.plan_id (some r.project_id) db ≡ some p
    → find_plan r.plan_id none db ≡ some p

pub record IsClaimed (r : Verdict) (w w' : World) (plan : Plan) (revision : PlanRevision)
    (a : PlanApproval) (h : PlanHandoff) : Type 0 where
  pub current : IsCurrent r w.db plan revision
  pub allowed : permitted r.actor_id r.project_id Permission.plan_approve w.db ≡ true
  pub unapproved : get_approval_for_revision revision.id ApprovalResult.approved w.db ≡ none
  pub proposed : plan.current_state ≡ PlanState.proposed
  pub approval : a ≡ evidence w.next_token ApprovalResult.approved r plan revision
  pub handoff_revision : h.revision_id ≡ revision.id
  pub drawn : w' ≡ record w { next_token = suc (suc w.next_token) }

pub prepare_approval-fresh :
    (r : Verdict) (w w' : World) (plan : Plan) (revision : PlanRevision) (a : PlanApproval)
    (h : PlanHandoff)
    → HasPlanKey r w.db
    → prepare_approval r w ≡ (ok (ApprovalClaim.fresh plan revision a h), w')
    → IsClaimed r w w' plan revision a h
unfolding prepare_approval is_valid_transition
prepare_approval-fresh r w w' plan revision a h key e = ground (
  arith,
  key plan,
  require_permission-refines-policy r.actor_id r.project_id Permission.plan_approve r.source w,
)
