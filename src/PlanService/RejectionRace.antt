-- ===== src/PlanService/RejectionRace.antt =====
-- `reject_revision` of src/zero/app/plan_service.py reads nothing again in its transaction.
use zero_agent_dev_telegram.Common.{
  ◌∙◌, suc, ◌≡◌, ◌≢◌, refl, arith, none, some, true, any, any-of_first, first-update, ==-refl, ◌==◌,
  ◌&&◌,
}
use zero_agent_dev_telegram.Domain.Authorization.{Permission}
use zero_agent_dev_telegram.Domain.Plans.{
  PlanState, RevisionState, Plan, PlanRevision, PlanApproval, PlanHandoff, ApprovalResult,
  is_valid_transition,
}
use zero_agent_dev_telegram.Database.{World}
use zero_agent_dev_telegram.Exec.{ok}
use zero_agent_dev_telegram.Authorization.Decision.{permitted, require_permission-refines-policy}
use zero_agent_dev_telegram.Repository.Plan.{
  in_scope, find_plan, find_revision, get_approval_for_revision, get_handoff_for_revision,
}
use zero_agent_dev_telegram.PlanService.Verdicts.{Verdict}
use zero_agent_dev_telegram.PlanService.Approvals.{approve_revision}
use zero_agent_dev_telegram.PlanService.Rejections.{
  RejectionClaim, prepare_rejection, commit_rejection,
}
use zero_agent_dev_telegram.PlanService.Pairing.{IsPaired}
use zero_agent_dev_telegram.PlanService.Inversion.{IsCurrent}
use zero_agent_dev_telegram.PlanService.Approving.{
  after_approval, handoff_for, approved_by, claimed, approve_revision-effect,
}
use zero_agent_dev_telegram.PlanService.Replay.{found_plan, found_revision, found_handoff}

record IsRejectable (r : Verdict) (w w' : World) (plan : Plan) (revision : PlanRevision)
    : Type 0 where
  proposed : plan.current_state ≡ PlanState.proposed
  drawn : w' ≡ record w { next_token = suc w.next_token }

prepare_rejection-fresh :
    (r : Verdict) (w w' : World) (plan : Plan) (revision : PlanRevision) (a : PlanApproval)
    → prepare_rejection r w ≡ (ok (RejectionClaim.fresh plan revision a), w')
    → IsRejectable r w w' plan revision
unfolding prepare_rejection is_valid_transition
prepare_rejection-fresh r w w' plan revision a e = record {
  proposed = ground (
    arith,
    require_permission-refines-policy r.actor_id r.project_id Permission.plan_reject r.source w,
  );
  drawn = ground (
    arith,
    require_permission-refines-policy r.actor_id r.project_id Permission.plan_reject r.source w,
  );
}

module _ (r : Verdict) (plan : Plan) (revision : PlanRevision) (a : PlanApproval) (w : World) where
  -- A rejection's transaction succeeds wherever its two rows are still there; the plan is rejected
  -- then, and the handoffs are as before.
  commit_rejection-plan :
      (plan' : Plan)
      → find_plan r.plan_id none w.db ≡ some plan'
      → plan'.id ≡ plan.id
      → any (λ p. p.id == plan.id) w.db.plans ≡ true
      → any (λ s. s.id == revision.id) w.db.plan_revisions ≡ true
      → ((commit_rejection r (RejectionClaim.fresh plan revision a) w).0 ≡ ok a)
        × (find_plan r.plan_id none
              (commit_rejection r (RejectionClaim.fresh plan revision a) w).1.db
            ≡ some (record plan' { current_state = PlanState.rejected }))
        × ((commit_rejection r (RejectionClaim.fresh plan revision a) w).1.db.plan_handoffs
            ≡ w.db.plan_handoffs)
  unfolding commit_rejection find_plan
  commit_rejection-plan plan' found same has_plan has_revision = (
    ground arith,
    ground (
      arith,
      ==-refl plan.id,
      first-update (λ p. p.id == r.plan_id && in_scope none p.project_id) (λ p. p.id == plan.id)
          (λ p. record p { current_state = PlanState.rejected }) (λ x. refl) w.db.plans,
    ),
    ground arith,
  )

module _ (r s : Verdict) (u : World) (plan : Plan) (revision : PlanRevision) (a : PlanApproval)
    (c : IsCurrent r u.db plan revision) (d : IsCurrent s u.db plan revision) (p : IsPaired u.db)
    (nz : plan.current_revision_number ≢ 0)
    (unapproved : get_approval_for_revision revision.id ApprovalResult.approved u.db ≡ none)
    (proposed : plan.current_state ≡ PlanState.proposed) (same : s.plan_id ≡ r.plan_id)
    (allowed : permitted s.actor_id s.project_id Permission.plan_approve u.db ≡ true) where
  abbrev b : PlanApproval
  b = approved_by s plan revision u

  abbrev h : PlanHandoff
  h = handoff_for s plan revision u

  abbrev v : World
  v = after_approval s plan revision b h (claimed s plan revision u)

  rows_after :
      (find_plan r.plan_id none v.db ≡ some (record plan { current_state = PlanState.approved }))
      × (any (λ p. p.id == plan.id) v.db.plans ≡ true)
      × (any (λ x. x.id == revision.id) v.db.plan_revisions ≡ true)
  unfolding find_plan find_revision
  rows_after =
      let found =
        rw same at (found_plan s plan revision b h (claimed s plan revision u) d none d.keyed) in
      (
        found,
        any-of_first (λ p. p.id == r.plan_id && in_scope none p.project_id) (λ p. p.id == plan.id)
            v.db.plans (record plan { current_state = PlanState.approved }) found (==-refl plan.id),
        any-of_first
            (λ x.
              (x.plan_id == s.plan_id && x.revision_number == plan.current_revision_number)
              && in_scope none x.project_id)
            (λ x. x.id == revision.id) v.db.plan_revisions
            (record revision { state = RevisionState.approved })
            (found_revision s plan revision b h (claimed s plan revision u) d)
            (==-refl revision.id),
      )

  over_approval :
      ((approve_revision s u).0 ≡ ok (b, h))
      × ((commit_rejection r (RejectionClaim.fresh plan revision a) (approve_revision s u).1).0
          ≡ ok a)
      × (find_plan r.plan_id none
            (commit_rejection r
              (RejectionClaim.fresh plan revision a)
              (approve_revision s u).1).1.db
          ≡ some (record plan { current_state = PlanState.rejected }))
      × (get_handoff_for_revision revision.id none
            (commit_rejection r
              (RejectionClaim.fresh plan revision a)
              (approve_revision s u).1).1.db
          ≡ some h)
  unfolding get_handoff_for_revision
  over_approval =
      let effect = approve_revision-effect s plan revision u d allowed unapproved proposed nz p in
      let (rejected, planned, handed) =
        commit_rejection-plan r plan revision a v
          (record plan { current_state = PlanState.approved }) rows_after.0 refl rows_after.1
          rows_after.2 in
      rw effect (
        refl,
        rejected,
        planned,
        rw handed
            (found_handoff s plan revision b h (claimed s plan revision u) d refl unapproved p),
      )

-- A rejection whose checks have passed is stored although an approval of the same revision has
-- succeeded in between: the plan is then rejected, and the handoff of the approval is still there.
pub rejection_over_approval :
    (r s : Verdict) (w w1 : World) (plan : Plan) (revision : PlanRevision) (a : PlanApproval)
    → IsCurrent r w.db plan revision
    → IsPaired w.db
    → plan.current_revision_number ≢ 0
    → get_approval_for_revision revision.id ApprovalResult.approved w.db ≡ none
    → prepare_rejection r w ≡ (ok (RejectionClaim.fresh plan revision a), w1)
    → s.plan_id ≡ r.plan_id
    → s.project_id ≡ r.project_id
    → s.expected_revision_number ≡ r.expected_revision_number
    → permitted s.actor_id s.project_id Permission.plan_approve w.db ≡ true
    → ((approve_revision s w1).0
        ≡ ok (approved_by s plan revision w1, handoff_for s plan revision w1))
      × ((commit_rejection r (RejectionClaim.fresh plan revision a) (approve_revision s w1).1).0
          ≡ ok a)
      × (find_plan r.plan_id none
            (commit_rejection r
              (RejectionClaim.fresh plan revision a)
              (approve_revision s w1).1).1.db
          ≡ some (record plan { current_state = PlanState.rejected }))
      × (get_handoff_for_revision revision.id none
            (commit_rejection r
              (RejectionClaim.fresh plan revision a)
              (approve_revision s w1).1).1.db
          ≡ some (handoff_for s plan revision w1))
rejection_over_approval r s w w1 plan revision a c p nz unapproved prepared e1 e2 e3 allowed =
    let rejectable = prepare_rejection-fresh r w w1 plan revision a prepared in
    rw rejectable.drawn (
      over_approval r s (record w { next_token = suc w.next_token }) plan revision a c
        (record {
          scoped = rw (e1, e2) c.scoped;
          keyed = rw e1 c.keyed;
          at_revision = rw e1 c.at_revision;
          expected = e3 ∙ c.expected;
        })
        p nz unapproved rejectable.proposed e1 allowed)
