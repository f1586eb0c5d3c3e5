-- ===== src/PlanService/Races.antt =====
-- What may happen between the checks of a method of src/zero/app/plan_service.py and its
-- transaction, which looks for a stored approval again but not at the plan.
use zero_agent_dev_telegram.Common.{
  ◌∙◌, ap, update, ◌++◌, suc, ◌≡◌, refl, arith, Option, none, some, true, [], ◌∷◌, ◌==◌, ◌&&◌, any,
  first-update, any-append, any-of_first, ==-refl,
}
use zero_agent_dev_telegram.Domain.Plans.{
  PlanState, Plan, PlanRevision, PlanApproval, PlanHandoff, ApprovalResult,
}
use zero_agent_dev_telegram.Domain.Identity.{ProjectId}
use zero_agent_dev_telegram.Database.{World}
use zero_agent_dev_telegram.Exec.{Result, ok}
use zero_agent_dev_telegram.Repository.Plan.{
  in_scope, find_plan, find_revision, get_approval_for_revision, with_state,
}
use zero_agent_dev_telegram.PlanService.Verdicts.{Verdict}
use zero_agent_dev_telegram.PlanService.Proposals.{Proposal, propose_revision}
use zero_agent_dev_telegram.PlanService.Approvals.{ApprovalClaim, prepare_approval, commit_approval}
use zero_agent_dev_telegram.PlanService.Proposing.{IsProposed, propose_revision-IsProposed}
use zero_agent_dev_telegram.PlanService.Pairing.{IsPaired}
use zero_agent_dev_telegram.PlanService.Inversion.{HasPlanKey, IsClaimed, prepare_approval-fresh}
use zero_agent_dev_telegram.PlanService.Approving.{after_approval, commit_approval-fresh}

-- What a proposal that succeeds has changed, as far as an approval reads it.
record IsOvertaken (q : Proposal) (w w' : World) (n : PlanRevision) : Type 0 where
  plan : Plan
  scoped : find_plan q.plan_id (some q.project_id) w.db ≡ some plan
  number : n.revision_number ≡ suc plan.current_revision_number
  plans :
      w'.db.plans
      ≡ update
          (λ p. p.id == plan.id)
          (with_state PlanState.proposed (some n.revision_number))
          w.db.plans
  revisions : w'.db.plan_revisions ≡ w.db.plan_revisions ++ n ∷ []
  approvals : w'.db.plan_approvals ≡ w.db.plan_approvals
  handoffs : w'.db.plan_handoffs ≡ w.db.plan_handoffs

IsOvertaken-of :
    (q : Proposal) (w w' : World) (n : PlanRevision) → IsProposed q w w' n → IsOvertaken q w w' n
IsOvertaken-of q w w' n d = record {
  plan = d.plan;
  scoped = d.prepared.scoped;
  number = ap (λ (x : PlanRevision). x.revision_number) d.prepared.revision;
  plans = ground (arith, d.prepared.revision, d.stored.plans, d.prepared.drawn);
  revisions = ground (arith, d.stored.revisions, d.prepared.drawn);
  approvals = ground (arith, d.stored.approvals, d.prepared.drawn);
  handoffs = ground (arith, d.stored.handoffs, d.prepared.drawn);
}

-- What the transaction of the approval meets after the proposal.
module _ (r : Verdict) (q : Proposal) (w w1 w2 : World) (plan : Plan) (revision n : PlanRevision)
    (a : PlanApproval) (h : PlanHandoff) (c : IsClaimed r w w1 plan revision a h)
    (p : IsPaired w.db) (same_plan : q.plan_id ≡ r.plan_id)
    (same_project : q.project_id ≡ r.project_id) (d : IsOvertaken q w1 w2 n) where
  abbrev between : Plan
  between = record plan {
    current_state = PlanState.proposed;
    current_revision_number = suc plan.current_revision_number;
  }

  same_row : d.plan ≡ plan
  same_row = ground (arith, c.current.scoped, d.scoped, c.drawn, same_plan, same_project)

  found_between :
      (scope : Option ProjectId)
      → find_plan r.plan_id scope w.db ≡ some plan
      → find_plan r.plan_id scope w2.db ≡ some between
  unfolding find_plan
  found_between scope e = ground (
    arith,
    ==-refl plan.id,
    c.drawn,
    d.plans,
    d.number,
    same_row,
    first-update (λ p. p.id == r.plan_id && in_scope scope p.project_id) (λ p. p.id == plan.id)
        (with_state PlanState.proposed (some (suc plan.current_revision_number))) (λ x. refl)
        w.db.plans,
  )

  rows_between :
      (any (λ p. p.id == plan.id) w2.db.plans ≡ true)
      × (any (λ s. s.id == revision.id) w2.db.plan_revisions ≡ true)
  unfolding find_plan find_revision
  rows_between = (
    any-of_first (λ p. p.id == r.plan_id && in_scope none p.project_id) (λ p. p.id == plan.id)
        w2.db.plans between (found_between none c.current.keyed) (==-refl plan.id),
    rw d.revisions (
        rw any-append (
          ground (
            arith,
            c.drawn,
            any-of_first
                (λ s.
                  (s.plan_id == r.plan_id && s.revision_number == plan.current_revision_number)
                  && in_scope none s.project_id)
                (λ s. s.id == revision.id) w.db.plan_revisions revision c.current.at_revision
                (==-refl revision.id),
          ))),
  )

  unapproved_between : get_approval_for_revision revision.id ApprovalResult.approved w2.db ≡ none
  unfolding get_approval_for_revision
  unapproved_between = ground (arith, c.unapproved, c.drawn, d.approvals)

  IsPaired-between : IsPaired w2.db
  IsPaired-between = record {
    paired = λ rid. ground (arith, p.paired rid, c.drawn, d.approvals, d.handoffs);
    single = λ rid. ground (arith, p.single rid, c.drawn, d.handoffs);
  }

  stored_over_proposal :
      (commit_approval r (ApprovalClaim.fresh plan revision a h) w2
        ≡ (ok (a, h), after_approval r plan revision a h w2))
  stored_over_proposal =
      commit_approval-fresh r plan revision a h w2 rows_between.0 rows_between.1 unapproved_between
        (ground (arith, c.approval)) (ground (arith, c.approval)) c.handoff_revision
        IsPaired-between

  plan_over_proposal :
      find_plan r.plan_id none (after_approval r plan revision a h w2).db
      ≡ some (record between { current_state = PlanState.approved })
  unfolding find_plan
  plan_over_proposal = ground (
    arith,
    ==-refl plan.id,
    found_between none c.current.keyed,
    first-update (λ p. p.id == r.plan_id && in_scope none p.project_id) (λ p. p.id == plan.id)
        (λ p. record p { current_state = PlanState.approved }) (λ x. refl) w2.db.plans,
  )

-- The approval of revision k, whose checks have passed, is stored although a proposal of revision
-- k + 1 has succeeded in between: the plan is then approved with k + 1 for its current revision, and
-- the approval and the handoff name revision k.
pub approval_over_proposal :
    (r : Verdict) (q : Proposal) (w w1 w2 : World) (plan : Plan) (revision n : PlanRevision)
    (a : PlanApproval) (h : PlanHandoff)
    → HasPlanKey r w.db
    → IsPaired w.db
    → prepare_approval r w ≡ (ok (ApprovalClaim.fresh plan revision a h), w1)
    → q.plan_id ≡ r.plan_id
    → q.project_id ≡ r.project_id
    → propose_revision q w1 ≡ (ok n, w2)
    → ((commit_approval r (ApprovalClaim.fresh plan revision a h) w2).0 ≡ ok (a, h))
      × (a.revision_id ≡ revision.id)
      × (h.revision_id ≡ revision.id)
      × (n.revision_number ≡ suc r.expected_revision_number)
      × (find_plan r.plan_id none
            (commit_approval r (ApprovalClaim.fresh plan revision a h) w2).1.db
          ≡ some (record plan {
            current_state = PlanState.approved;
            current_revision_number = n.revision_number;
          }))
approval_over_proposal r q w w1 w2 plan revision n a h key p prepared e1 e2 proposed =
    let c = prepare_approval-fresh r w w1 plan revision a h key prepared in
    let d = IsOvertaken-of q w1 w2 n (propose_revision-IsProposed q w1 w2 n proposed) in
    let stored = stored_over_proposal r q w w1 w2 plan revision n a h c p e1 e2 d in
    let number : n.revision_number ≡ suc plan.current_revision_number =
      d.number
      ∙ ap (λ (x : Plan). suc x.current_revision_number)
          (same_row r q w w1 w2 plan revision n a h c p e1 e2 d) in
    (
      ap (λ (x : Result (PlanApproval × PlanHandoff) × World). x.0) stored,
      ap (λ (x : PlanApproval). x.revision_id) c.approval,
      c.handoff_revision,
      rw c.current.expected number,
      rw (stored, number) (plan_over_proposal r q w w1 w2 plan revision n a h c p e1 e2 d),
    )
