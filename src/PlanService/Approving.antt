-- ===== src/PlanService/Approving.antt =====
-- What `approve_revision` of src/zero/app/plan_service.py does when its checks pass.
use zero_agent_dev_telegram.Common.{
  suc, ◌≡◌, refl, arith, none, some, true, [], ◌∷◌, ◌++◌, ◌==◌, ◌&&◌, any, update, any-eq-first,
  any-of_first, any_mono, ==-refl, ◌≢◌,
}
use zero_agent_dev_telegram.Domain.Authorization.{Permission}
use zero_agent_dev_telegram.Domain.Audit.{Operation, Target, AuditResult}
use zero_agent_dev_telegram.Domain.Plans.{
  PlanState, RevisionState, Plan, PlanRevision, PlanApproval, PlanHandoff, ApprovalResult,
  is_valid_transition,
}
use zero_agent_dev_telegram.Database.{World}
use zero_agent_dev_telegram.Exec.{ok}
use zero_agent_dev_telegram.Authorization.Decision.{permitted, require_permission-refines-policy}
use zero_agent_dev_telegram.Repository.Plan.{
  in_scope, find_plan, find_revision, get_approval_for_revision,
}
use zero_agent_dev_telegram.PlanService.Verdicts.{Verdict, evidence}
use zero_agent_dev_telegram.PlanService.Approvals.{
  ApprovalClaim, prepare_approval, commit_approval, approve_revision,
}
use zero_agent_dev_telegram.PlanService.Pairing.{IsPaired, approves, same_evidence}
use zero_agent_dev_telegram.PlanService.Inversion.{IsCurrent}

abbrev pub handoff_for : Verdict → Plan → PlanRevision → World → PlanHandoff
handoff_for r plan revision w = record {
  id = suc w.next_token;
  plan_id = plan.id;
  revision_id = revision.id;
  project_id = plan.project_id;
  approved_by = r.actor_id;
  execution_id = none;
}

-- The world after an approval: the evidence and the handoff stored, the revision and the plan
-- approved, and one audit event.
abbrev pub after_approval :
    Verdict → Plan → PlanRevision → PlanApproval → PlanHandoff → World → World
after_approval r plan revision a h w = record w {
  db = record w.db {
    plan_approvals = w.db.plan_approvals ++ a ∷ [];
    plan_revisions =
        update (λ s. s.id == revision.id) (λ s. record s { state = RevisionState.approved })
          w.db.plan_revisions;
    plans =
        update (λ p. p.id == plan.id) (λ p. record p { current_state = PlanState.approved })
          w.db.plans;
    plan_handoffs = w.db.plan_handoffs ++ h ∷ [];
    audit_events =
        w.db.audit_events
        ++ record {
          id = w.next_token;
          project_id = some plan.project_id;
          actor_id = some r.actor_id;
          source = r.source;
          operation = Operation.plan_approve;
          target = Target.plan_revision revision.id;
          result = AuditResult.success;
          correlation_id = some plan.id;
        }
          ∷ [];
  };
  next_token = suc w.next_token;
}

module _ (r : Verdict) (plan : Plan) (revision : PlanRevision) (a : PlanApproval) (h : PlanHandoff)
    (w : World) where
  pub commit_approval-fresh :
      any (λ p. p.id == plan.id) w.db.plans ≡ true
      → any (λ s. s.id == revision.id) w.db.plan_revisions ≡ true
      → get_approval_for_revision revision.id ApprovalResult.approved w.db ≡ none
      → a.revision_id ≡ revision.id
      → a.result ≡ ApprovalResult.approved
      → h.revision_id ≡ revision.id
      → IsPaired w.db
      → commit_approval r (ApprovalClaim.fresh plan revision a h) w
        ≡ (ok (a, h), after_approval r plan revision a h w)
  unfolding commit_approval
  commit_approval-fresh has_plan has_revision unapproved a_rev a_result h_rev p = ground (
    arith,
    p.paired revision.id,
    any-eq-first (approves revision.id) w.db.plan_approvals,
    any_mono (same_evidence a) (approves revision.id) (λ x e. ground arith) w.db.plan_approvals,
  )

  current_rows :
      IsCurrent r w.db plan revision
      → (any (λ p. p.id == plan.id) w.db.plans ≡ true)
        × (any (λ s. s.id == revision.id) w.db.plan_revisions ≡ true)
  unfolding find_plan find_revision
  current_rows c = (
    any-of_first (λ p. p.id == r.plan_id && in_scope none p.project_id) (λ p. p.id == plan.id)
        w.db.plans plan c.keyed (==-refl plan.id),
    any-of_first
        (λ s.
          (s.plan_id == r.plan_id && s.revision_number == plan.current_revision_number)
          && in_scope none s.project_id)
        (λ s. s.id == revision.id) w.db.plan_revisions revision c.at_revision (==-refl revision.id),
  )

module _ (r : Verdict) (plan : Plan) (revision : PlanRevision) (w : World) where
  abbrev pub approved_by : PlanApproval
  approved_by = evidence w.next_token ApprovalResult.approved r plan revision

  abbrev pub claimed : World
  claimed = record w { next_token = suc (suc w.next_token) }

  prepare_approval-passes :
      IsCurrent r w.db plan revision
      → permitted r.actor_id r.project_id Permission.plan_approve w.db ≡ true
      → get_approval_for_revision revision.id ApprovalResult.approved w.db ≡ none
      → plan.current_state ≡ PlanState.proposed
      → plan.current_revision_number ≢ 0
      → prepare_approval r w ≡ (
        ok (ApprovalClaim.fresh plan revision approved_by (handoff_for r plan revision w)),
        claimed,
      )
  unfolding prepare_approval is_valid_transition
  prepare_approval-passes c allowed unapproved st nz = ground (
    arith,
    c.scoped,
    c.keyed,
    c.at_revision,
    c.expected,
    require_permission-refines-policy r.actor_id r.project_id Permission.plan_approve r.source w,
  )

  -- An approval by someone who may approve, of the current revision of a plan under proposal that
  -- has no approval yet, in tables where approvals and handoffs are paired, returns its evidence
  -- and its handoff, and leaves just these changes: the evidence, the approved states of revision
  -- and plan, the handoff, one audit event and the drawn identifiers.
  pub approve_revision-effect :
      IsCurrent r w.db plan revision
      → permitted r.actor_id r.project_id Permission.plan_approve w.db ≡ true
      → get_approval_for_revision revision.id ApprovalResult.approved w.db ≡ none
      → plan.current_state ≡ PlanState.proposed
      → plan.current_revision_number ≢ 0
      → IsPaired w.db
      → approve_revision r w ≡ (
        ok (approved_by, handoff_for r plan revision w),
        after_approval r plan revision approved_by (handoff_for r plan revision w) claimed,
      )
  unfolding approve_revision
  approve_revision-effect c allowed unapproved st nz p =
      rw (prepare_approval-passes c allowed unapproved st nz) (
        commit_approval-fresh r plan revision approved_by (handoff_for r plan revision w) claimed
          (current_rows r plan revision approved_by (handoff_for r plan revision w) w c).0
          (current_rows r plan revision approved_by (handoff_for r plan revision w) w c).1
          unapproved refl refl refl p)
