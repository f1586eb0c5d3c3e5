-- ===== src/PlanService/Pairing.antt =====
-- Approval evidence and handoffs of src/zero/app/plan_service.py come in pairs.
use zero_agent_dev_telegram.Common.{
  ◌≡◌, arith, Bool, ◌==◌, ◌&&◌, ◌≤◌, any, select, length, [], ◌∷◌, any-append, any_mono,
  any-eq-first, length-select-append, length-select-of_none, text_eq,
}
use zero_agent_dev_telegram.Domain.Plans.{
  PlanRevisionId, PlanApproval, PlanHandoff, ApprovalResult, approval_result_eq,
}
use zero_agent_dev_telegram.Domain.Authorization.{Permission}
use zero_agent_dev_telegram.Database.{Db, World}
use zero_agent_dev_telegram.Exec.{ok}
use zero_agent_dev_telegram.Authorization.Decision.{require_permission-refines-policy}
use zero_agent_dev_telegram.PlanService.Verdicts.{Verdict}
use zero_agent_dev_telegram.PlanService.Approvals.{ApprovalClaim, prepare_approval, commit_approval}
use zero_agent_dev_telegram.PlanService.Rejections.{
  RejectionClaim, prepare_rejection, commit_rejection,
}

abbrev pub approves : PlanRevisionId → PlanApproval → Bool
approves rid a = a.revision_id == rid && approval_result_eq a.result ApprovalResult.approved

abbrev pub hands_off : PlanRevisionId → PlanHandoff → Bool
hands_off rid h = h.revision_id == rid

-- A revision has a handoff exactly when it has an approval, and never two handoffs.
pub record IsPaired (db : Db) : Type 0 where
  pub paired :
      (rid : PlanRevisionId)
      → any (hands_off rid) db.plan_handoffs ≡ any (approves rid) db.plan_approvals
  pub single : (rid : PlanRevisionId) → length (select (hands_off rid) db.plan_handoffs) ≤ 1

-- A claim names one revision throughout.
abbrev pub IsClaim : ApprovalClaim → Type 0
IsClaim (ApprovalClaim.stored a h) = Unit {0}
IsClaim (ApprovalClaim.fresh plan revision a h) =
    (a.revision_id ≡ revision.id)
    × (a.result ≡ ApprovalResult.approved)
    × (h.revision_id ≡ revision.id)

abbrev pub IsRejection : RejectionClaim → Type 0
IsRejection (RejectionClaim.stored a) = Unit {0}
IsRejection (RejectionClaim.fresh plan revision a) = a.result ≡ ApprovalResult.rejected

pub prepare_approval-IsClaim :
    (r : Verdict) (w w' : World) (c : ApprovalClaim) → prepare_approval r w ≡ (ok c, w') → IsClaim c
unfolding prepare_approval
prepare_approval-IsClaim r w w' (ApprovalClaim.stored a h) e = tt
prepare_approval-IsClaim r w w' (ApprovalClaim.fresh plan revision a h) e = ground (
  arith,
  require_permission-refines-policy r.actor_id r.project_id Permission.plan_approve r.source w,
)

pub prepare_rejection-IsRejection :
    (r : Verdict) (w w' : World) (c : RejectionClaim)
    → prepare_rejection r w ≡ (ok c, w')
    → IsRejection c
unfolding prepare_rejection
prepare_rejection-IsRejection r w w' (RejectionClaim.stored a) e = tt
prepare_rejection-IsRejection r w w' (RejectionClaim.fresh plan revision a) e = ground (
  arith,
  require_permission-refines-policy r.actor_id r.project_id Permission.plan_reject r.source w,
)

abbrev pub same_evidence : PlanApproval → PlanApproval → Bool
same_evidence a b =
    (a.revision_id == b.revision_id && approval_result_eq a.result b.result)
    && text_eq a.idempotency_key b.idempotency_key

pub commit_approval-IsPaired :
    (r : Verdict) (c : ApprovalClaim) (w : World)
    → IsClaim c
    → IsPaired w.db
    → IsPaired (commit_approval r c w).1.db
unfolding commit_approval select
commit_approval-IsPaired r (ApprovalClaim.stored a h) w claim p = p
commit_approval-IsPaired r (ApprovalClaim.fresh plan revision a h) w claim p = record {
  paired = λ rid. ground (
    arith,
    p.paired rid,
    p.paired revision.id,
    any-append (hands_off rid) w.db.plan_handoffs (h ∷ []),
    any-append (approves rid) w.db.plan_approvals (a ∷ []),
    any-eq-first (approves revision.id) w.db.plan_approvals,
    any_mono (same_evidence a) (approves revision.id) (λ x e. ground arith) w.db.plan_approvals,
  );
  single = λ rid. ground (
    arith,
    p.single rid,
    p.paired revision.id,
    length-select-append (hands_off rid) w.db.plan_handoffs (h ∷ []),
    length-select-of_none (hands_off rid) w.db.plan_handoffs,
    any-eq-first (approves revision.id) w.db.plan_approvals,
  );
}

pub commit_rejection-IsPaired :
    (r : Verdict) (c : RejectionClaim) (w : World)
    → IsRejection c
    → IsPaired w.db
    → IsPaired (commit_rejection r c w).1.db
unfolding commit_rejection
commit_rejection-IsPaired r (RejectionClaim.stored a) w claim p = p
commit_rejection-IsPaired r (RejectionClaim.fresh plan revision a) w claim p = record {
  paired =
      λ rid. ground (arith, p.paired rid, any-append (approves rid) w.db.plan_approvals (a ∷ []));
  single = λ rid. ground (arith, p.single rid);
}
