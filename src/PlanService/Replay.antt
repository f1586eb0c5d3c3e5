-- ===== src/PlanService/Replay.antt =====
-- A repeated approval: src/zero/app/plan_service.py returns the stored pair and writes nothing.
use zero_agent_dev_telegram.Common.{
  ◌∙◌, ◌≡◌, ◌≢◌, refl, arith, none, some, true, [], ◌∷◌, ◌==◌, ◌&&◌, first, any-eq-first,
  first-append, first-update, any_mono, ==-refl, Option,
}
use zero_agent_dev_telegram.Domain.Authorization.{Permission}
use zero_agent_dev_telegram.Domain.Plans.{
  PlanState, RevisionState, Plan, PlanRevision, PlanApproval, PlanHandoff, ApprovalResult,
}
use zero_agent_dev_telegram.Domain.Identity.{ProjectId}
use zero_agent_dev_telegram.Database.{World}
use zero_agent_dev_telegram.Exec.{ok}
use zero_agent_dev_telegram.Authorization.Decision.{permitted, require_permission-refines-policy}
use zero_agent_dev_telegram.Repository.Plan.{
  in_scope, find_plan, find_revision, get_approval_for_revision, get_handoff_for_revision,
}
use zero_agent_dev_telegram.PlanService.Verdicts.{Verdict}
use zero_agent_dev_telegram.PlanService.Approvals.{
  prepare_approval, commit_approval, approve_revision,
}
use zero_agent_dev_telegram.PlanService.Pairing.{IsPaired, approves, hands_off}
use zero_agent_dev_telegram.PlanService.Inversion.{IsCurrent}
use zero_agent_dev_telegram.PlanService.Approving.{
  after_approval, handoff_for, approve_revision-effect, approved_by, claimed,
}

module _ (r : Verdict) (plan : Plan) (revision : PlanRevision) (a : PlanApproval) (h : PlanHandoff)
    (w : World) (c : IsCurrent r w.db plan revision) where
  abbrev pub w' : World
  w' = after_approval r plan revision a h w

  abbrev pub plan' : Plan
  plan' = record plan { current_state = PlanState.approved }

  abbrev pub revision' : PlanRevision
  revision' = record revision { state = RevisionState.approved }

  pub found_plan :
      (scope : Option ProjectId)
      → find_plan r.plan_id scope w.db ≡ some plan
      → find_plan r.plan_id scope w'.db ≡ some plan'
  unfolding find_plan
  found_plan scope e = ground (
    arith,
    ==-refl plan.id,
    first-update (λ p. p.id == r.plan_id && in_scope scope p.project_id) (λ p. p.id == plan.id)
        (λ p. record p { current_state = PlanState.approved }) (λ x. refl) w.db.plans,
  )

  pub found_revision :
      find_revision r.plan_id plan.current_revision_number none w'.db ≡ some revision'
  unfolding find_revision
  found_revision = ground (
    arith,
    ==-refl revision.id,
    c.at_revision,
    first-update
        (λ s.
          (s.plan_id == r.plan_id && s.revision_number == plan.current_revision_number)
          && in_scope none s.project_id)
        (λ s. s.id == revision.id) (λ s. record s { state = RevisionState.approved }) (λ x. refl)
        w.db.plan_revisions,
  )

  found_approval :
      a.revision_id ≡ revision.id
      → a.result ≡ ApprovalResult.approved
      → get_approval_for_revision revision.id ApprovalResult.approved w.db ≡ none
      → get_approval_for_revision revision.id ApprovalResult.approved w'.db ≡ some a
  unfolding get_approval_for_revision first
  found_approval e e' unapproved =
      ground (arith, first-append (approves revision.id) w.db.plan_approvals (a ∷ []))

  pub found_handoff :
      h.revision_id ≡ revision.id
      → get_approval_for_revision revision.id ApprovalResult.approved w.db ≡ none
      → IsPaired w.db
      → get_handoff_for_revision revision.id none w'.db ≡ some h
  unfolding get_approval_for_revision get_handoff_for_revision first
  found_handoff e unapproved p = ground (
    arith,
    p.paired revision.id,
    any-eq-first (approves revision.id) w.db.plan_approvals,
    any_mono (λ k. hands_off revision.id k && in_scope none k.project_id) (hands_off revision.id)
        (λ x t. ground arith) w.db.plan_handoffs,
    any-eq-first (λ k. hands_off revision.id k && in_scope none k.project_id) w.db.plan_handoffs,
    first-append (λ k. hands_off revision.id k && in_scope none k.project_id) w.db.plan_handoffs
        (h ∷ []),
  )

approve_revision-stored :
    (r : Verdict) (plan : Plan) (revision : PlanRevision) (a : PlanApproval) (h : PlanHandoff)
    (w : World)
    → IsCurrent r w.db plan revision
    → permitted r.actor_id r.project_id Permission.plan_approve w.db ≡ true
    → plan.current_revision_number ≢ 0
    → get_approval_for_revision revision.id ApprovalResult.approved w.db ≡ some a
    → get_handoff_for_revision revision.id none w.db ≡ some h
    → approve_revision r w ≡ (ok (a, h), w)
unfolding approve_revision prepare_approval commit_approval
approve_revision-stored r plan revision a h w c allowed nz ea eh = ground (
  arith,
  c.scoped,
  c.keyed,
  c.at_revision,
  c.expected,
  require_permission-refines-policy r.actor_id r.project_id Permission.plan_approve r.source w,
)

-- Once an approval has succeeded, an approval of the same revision by anyone who may approve has
-- the same outcome, whatever its idempotency key: the stored pair, and the same world.
pub approve_revision_twice :
    (r s : Verdict) (plan : Plan) (revision : PlanRevision) (w : World)
    → IsCurrent r w.db plan revision
    → permitted r.actor_id r.project_id Permission.plan_approve w.db ≡ true
    → get_approval_for_revision revision.id ApprovalResult.approved w.db ≡ none
    → plan.current_state ≡ PlanState.proposed
    → plan.current_revision_number ≢ 0
    → IsPaired w.db
    → s.plan_id ≡ r.plan_id
    → s.project_id ≡ r.project_id
    → s.expected_revision_number ≡ r.expected_revision_number
    → permitted s.actor_id s.project_id Permission.plan_approve (approve_revision r w).1.db ≡ true
    → approve_revision s (approve_revision r w).1 ≡ approve_revision r w
approve_revision_twice r s plan revision w c allowed unapproved st nz p e1 e2 e3 allowed' =
    let a = approved_by r plan revision w in
    let h = handoff_for r plan revision w in
    let v = claimed r plan revision w in
    let effect = approve_revision-effect r plan revision w c allowed unapproved st nz p in
    rw effect (
      approve_revision-stored s (plan' r plan revision a h v c) (revision' r plan revision a h v c)
        a h (w' r plan revision a h v c)
        (record {
          scoped = rw (e1, e2) (found_plan r plan revision a h v c (some r.project_id) c.scoped);
          keyed = rw e1 (found_plan r plan revision a h v c none c.keyed);
          at_revision = rw e1 (found_revision r plan revision a h v c);
          expected = e3 ∙ c.expected;
        })
        (rw effect at allowed') nz (found_approval r plan revision a h v c refl refl unapproved)
        (found_handoff r plan revision a h v c refl unapproved p))
