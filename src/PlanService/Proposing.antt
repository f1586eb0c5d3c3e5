-- ===== src/PlanService/Proposing.antt =====
-- What a proposal of src/zero/app/plan_service.py that succeeds has checked and stored.
use zero_agent_dev_telegram.Common.{
  ◌⊎◌, ◌≢◌, Bool, suc, ◌≡◌, refl, ap, arith, none, some, true, false, [], ◌∷◌, ◌++◌, ◌==◌, ◌&&◌,
  Option-cases, inl, inr, any, first, update, any-eq-first, first-append, first-update, ==-refl,
  any_mono,
}
use zero_agent_dev_telegram.Domain.Authorization.{Permission}
use zero_agent_dev_telegram.Domain.Plans.{PlanState, RevisionState, Plan, PlanRevision}
use zero_agent_dev_telegram.Database.{World}
use zero_agent_dev_telegram.Exec.{ok, >>=-eq-ok}
use zero_agent_dev_telegram.Authorization.Decision.{permitted, require_permission-refines-policy}
use zero_agent_dev_telegram.Repository.Plan.{
  in_scope, find_plan, find_revision, with_state, same_number,
}
use zero_agent_dev_telegram.PlanService.Content.{content_errors}
use zero_agent_dev_telegram.PlanService.Proposals.{
  Proposal, accepts_proposal, prepare_proposal, commit_proposal, propose_revision,
}
use zero_agent_dev_telegram.PlanService.Provenance.{IsValidContent, content_errors-nil_iff}

pub record IsPrepared (q : Proposal) (w w' : World) (n : PlanRevision) (plan : Plan) : Type 0 where
  pub scoped : find_plan q.plan_id (some q.project_id) w.db ≡ some plan
  pub allowed : permitted q.actor_id q.project_id Permission.plan_propose w.db ≡ true
  pub no_errors : content_errors w.db plan.project_id q.content ≡ []
  pub accepted : accepts_proposal plan.current_state ≡ true
  pub drawn : w' ≡ record w { next_token = suc w.next_token }
  pub revision : n ≡ record {
    id = w.next_token;
    plan_id = plan.id;
    project_id = plan.project_id;
    revision_number = suc plan.current_revision_number;
    content = q.content;
    proposed_by = q.actor_id;
    state = RevisionState.proposed;
  }

prepare_proposal-IsPrepared :
    (q : Proposal) (w w' : World) (n : PlanRevision) (plan : Plan)
    → find_plan q.plan_id (some q.project_id) w.db ≡ some plan
    → prepare_proposal q w ≡ (ok n, w')
    → IsPrepared q w w' n plan
unfolding prepare_proposal
prepare_proposal-IsPrepared q w w' n plan found e = ground (
  arith,
  require_permission-refines-policy q.actor_id q.project_id Permission.plan_propose q.source w,
)

prepare_proposal-found :
    (q : Proposal) (w w' : World) (n : PlanRevision)
    → prepare_proposal q w ≡ (ok n, w')
    → find_plan q.plan_id (some q.project_id) w.db ≢ none
unfolding prepare_proposal
prepare_proposal-found q w w' n e missing = ground (
  arith,
  require_permission-refines-policy q.actor_id q.project_id Permission.plan_propose q.source w,
)

-- The rows that the transaction leaves.
pub record IsStored (w w' : World) (n : PlanRevision) : Type 0 where
  pub unused : any (same_number n) w.db.plan_revisions ≡ false
  pub plans :
      w'.db.plans
      ≡ update
          (λ p. p.id == n.plan_id)
          (with_state PlanState.proposed (some n.revision_number))
          w.db.plans
  pub revisions : w'.db.plan_revisions ≡ w.db.plan_revisions ++ n ∷ []
  pub approvals : w'.db.plan_approvals ≡ w.db.plan_approvals
  pub handoffs : w'.db.plan_handoffs ≡ w.db.plan_handoffs

commit_proposal-IsStored :
    (q : Proposal) (w w' : World) (n m : PlanRevision)
    → commit_proposal q n w ≡ (ok m, w')
    → IsStored w w' n
unfolding commit_proposal
commit_proposal-IsStored q w w' n m e = ground arith

commit_proposal-eq :
    (q : Proposal) (w w' : World) (n m : PlanRevision) → commit_proposal q n w ≡ (ok m, w') → m ≡ n
unfolding commit_proposal
commit_proposal-eq q w w' n m e = ground arith

-- A proposal that succeeds, as its two phases.
pub record IsProposed (q : Proposal) (w w' : World) (n : PlanRevision) : Type 0 where
  pub plan : Plan
  pub between : World
  pub prepared : IsPrepared q w between n plan
  pub stored : IsStored between w' n

IsProposed-through :
    (q : Proposal) (w v w' : World) (m n : PlanRevision)
    → prepare_proposal q w ≡ (ok m, v)
    → commit_proposal q m v ≡ (ok n, w')
    → IsProposed q w w' n
IsProposed-through q w v w' m n e f =
    elim (Option-cases (find_plan q.plan_id (some q.project_id) w.db)) [
      | inl missing ↦ absurd (prepare_proposal-found q w v m e missing)
      | inr (plan, found) ↦ rw (commit_proposal-eq q v w' m n f) (record {
        plan = plan;
        between = v;
        prepared = prepare_proposal-IsPrepared q w v m plan found e;
        stored = commit_proposal-IsStored q v w' m n f;
      })
    ]

pub propose_revision-IsProposed :
    (q : Proposal) (w w' : World) (n : PlanRevision)
    → propose_revision q w ≡ (ok n, w')
    → IsProposed q w w' n
unfolding propose_revision
propose_revision-IsProposed q w w' n e =
    let (m, v, prepared, committed) = >>=-eq-ok (prepare_proposal q) (commit_proposal q) w w' e in
    IsProposed-through q w v w' m n prepared committed

accepted_states :
    (s : PlanState) → accepts_proposal s ≡ true → (s ≡ PlanState.draft) ⊎ (s ≡ PlanState.proposed)
accepted_states PlanState.draft e = inl refl
accepted_states PlanState.proposed e = inr refl
accepted_states s e = absurd (cc)

module _ (q : Proposal) (w w' : World) (n : PlanRevision) (d : IsProposed q w w' n) where
  found_plan :
      find_plan q.plan_id (some q.project_id) w'.db
      ≡ some (record d.plan {
        current_state = PlanState.proposed;
        current_revision_number = n.revision_number;
      })
  unfolding find_plan
  found_plan = ground (
    arith,
    ==-refl d.plan.id,
    d.prepared.drawn,
    d.stored.plans,
    d.prepared.revision,
    d.prepared.scoped,
    first-update (λ p. p.id == q.plan_id && in_scope (some q.project_id) p.project_id)
        (λ p. p.id == n.plan_id) (with_state PlanState.proposed (some n.revision_number))
        (λ x. refl) w.db.plans,
  )

  found_revision : find_revision n.plan_id n.revision_number none w'.db ≡ some n
  unfolding find_revision first
  found_revision =
      let here : PlanRevision → Bool = λ s.
        (s.plan_id == n.plan_id && s.revision_number == n.revision_number)
        && in_scope none s.project_id in
      rw d.stored.revisions (
        ground (
          arith,
          d.stored.unused,
          ==-refl n.plan_id,
          ==-refl n.revision_number,
          any_mono here (same_number n) (λ x t. ground arith) d.between.db.plan_revisions,
          any-eq-first here d.between.db.plan_revisions,
          first-append here d.between.db.plan_revisions (n ∷ []),
        ))

-- A proposal that succeeds: its actor may propose, its content is valid for the plan's project, the
-- plan was a draft or under proposal, and now it is under proposal with the next revision number,
-- under which the stored revision is found, with the content as it was given.
pub propose_revision-effect :
    (q : Proposal) (w w' : World) (n : PlanRevision)
    → propose_revision q w ≡ (ok n, w')
    → (plan : Plan) × (find_plan q.plan_id (some q.project_id) w.db ≡ some plan)
      × (permitted q.actor_id q.project_id Permission.plan_propose w.db ≡ true)
      × IsValidContent w.db plan.project_id q.content
      × ((plan.current_state ≡ PlanState.draft) ⊎ (plan.current_state ≡ PlanState.proposed))
      × (n.content ≡ q.content)
      × (n.revision_number ≡ suc plan.current_revision_number)
      × (find_plan q.plan_id (some q.project_id) w'.db
          ≡ some (record plan {
            current_state = PlanState.proposed;
            current_revision_number = n.revision_number;
          }))
      × (find_revision n.plan_id n.revision_number none w'.db ≡ some n)
propose_revision-effect q w w' n e =
    let d = propose_revision-IsProposed q w w' n e in
    (
      d.plan,
      d.prepared.scoped,
      d.prepared.allowed,
      (content_errors-nil_iff w.db d.plan.project_id q.content).0 d.prepared.no_errors,
      accepted_states d.plan.current_state d.prepared.accepted,
      ap (λ (x : PlanRevision). x.content) d.prepared.revision,
      ap (λ (x : PlanRevision). x.revision_number) d.prepared.revision,
      found_plan q w w' n d,
      found_revision q w w' n d,
    )
