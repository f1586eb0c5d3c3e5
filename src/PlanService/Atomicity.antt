-- ===== src/PlanService/Atomicity.antt =====
-- What the methods of src/zero/app/plan_service.py leave alone: their checks write nothing but
-- denials, and a method that raises leaves the plan tables as they were.
use zero_agent_dev_telegram.Common.{◌≡◌, arith}
use zero_agent_dev_telegram.Domain.Authorization.{Permission}
use zero_agent_dev_telegram.Database.{Db, World}
use zero_agent_dev_telegram.Exec.{Result, ok, err}
use zero_agent_dev_telegram.Authorization.Decision.{require_permission-refines-policy}
use zero_agent_dev_telegram.PlanService.Proposals.{Proposal, prepare_proposal}
use zero_agent_dev_telegram.PlanService.Verdicts.{Verdict}
use zero_agent_dev_telegram.PlanService.Approvals.{prepare_approval}
use zero_agent_dev_telegram.PlanService.Rejections.{prepare_rejection}

abbrev pub SameButAudit : Db → Db → Type 0
SameButAudit before after = after ≡ record before { audit_events = after.audit_events }

-- An outcome that is an error left every table but the audit log as it was.
abbrev pub IsAtomic : {A : Type 0} → World → Result A × World → Type 0
IsAtomic w (ok a, w') = Unit {0}
IsAtomic w (err e, w') = SameButAudit w.db w'.db

pub prepare_proposal-SameButAudit :
    (r : Proposal) (w : World) → SameButAudit w.db (prepare_proposal r w).1.db
unfolding prepare_proposal
prepare_proposal-SameButAudit r w = ground (
  arith,
  require_permission-refines-policy r.actor_id r.project_id Permission.plan_propose r.source w,
)

pub prepare_approval-SameButAudit :
    (r : Verdict) (w : World) → SameButAudit w.db (prepare_approval r w).1.db
unfolding prepare_approval
prepare_approval-SameButAudit r w = ground (
  arith,
  require_permission-refines-policy r.actor_id r.project_id Permission.plan_approve r.source w,
)

pub prepare_rejection-SameButAudit :
    (r : Verdict) (w : World) → SameButAudit w.db (prepare_rejection r w).1.db
unfolding prepare_rejection
prepare_rejection-SameButAudit r w = ground (
  arith,
  require_permission-refines-policy r.actor_id r.project_id Permission.plan_reject r.source w,
)
