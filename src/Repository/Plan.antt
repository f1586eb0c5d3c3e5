-- ===== src/Repository/Plan.antt =====
-- src/zero/persistence/repositories/plan_repository.py: conversation events, plans, revisions,
-- approvals and handoffs, with the UNIQUE constraints of their tables.
use zero_agent_dev_telegram.Common.{
  ℕ, zero, suc, Bool, true, false, not, ◌&&◌, Option, none, some, List, [], ◌∷◌, ◌++◌, String, ◌==◌,
  text_eq, any, first, select, update,
}
use zero_agent_dev_telegram.Domain.Identity.{ProjectId}
use zero_agent_dev_telegram.Domain.Audit.{Source}
use zero_agent_dev_telegram.Domain.Plans.{
  PlanId, PlanRevisionId, PlanHandoffId, ConversationEventId, PlanState, RevisionState,
  ConversationEvent, Plan, PlanRevision, ApprovalResult, approval_result_eq, PlanApproval,
  PlanHandoff,
}
use zero_agent_dev_telegram.Domain.Errors.{Error}
use zero_agent_dev_telegram.Database.{Db}
use zero_agent_dev_telegram.Exec.{Exec, or_raise, guard, ◌>>=◌, ◌>>◌, query, write}

-- The optional `AND project_id = ?`.
abbrev pub in_scope : Option ProjectId → ProjectId → Bool
in_scope none project = true
in_scope (some scope) project = project == scope

abbrev source_index : Source → ℕ
source_index Source.web = 0
source_index Source.telegram = 1
source_index Source.discord = 2
source_index Source.system = 3
source_index Source.internal = 4

-- NULL is equal to nothing under UNIQUE.
abbrev same_external : Option String → Option String → Bool
same_external (some a) (some b) = text_eq a b
same_external _ _ = false

abbrev pub same_delivery : ConversationEvent → ConversationEvent → Bool
same_delivery e f =
    source_index e.source == source_index f.source
    && same_external e.external_event_id f.external_event_id

unfoldable pub insert_conversation_event : ConversationEvent → Exec Unit
insert_conversation_event event = do
  delivered ← query (λ db. any (same_delivery event) db.conversation_events)
  guard (not delivered) Error.duplicate_conversation_event
  write (λ db. record db { conversation_events = db.conversation_events ++ event ∷ [] })

unfoldable pub find_conversation_event : ConversationEventId → Db → Option ConversationEvent
find_conversation_event event_id db = first (λ e. e.id == event_id) db.conversation_events

unfoldable pub insert_plan : Plan → Exec Unit
insert_plan plan = write (λ db. record db { plans = db.plans ++ plan ∷ [] })

unfoldable pub find_plan : PlanId → Option ProjectId → Db → Option Plan
find_plan plan_id scope db = first (λ p. p.id == plan_id && in_scope scope p.project_id) db.plans

unfoldable pub get_plan : PlanId → Option ProjectId → Exec Plan
get_plan plan_id scope = do row ← query (find_plan plan_id scope); or_raise Error.plan_not_found row

abbrev pub with_state : PlanState → Option ℕ → Plan → Plan
with_state new_state none p = record p { current_state = new_state }
with_state new_state (some n) p = record p {
  current_state = new_state;
  current_revision_number = n;
}

unfoldable pub update_plan_state : PlanId → PlanState → Option ℕ → Exec Unit
update_plan_state plan_id new_state new_revision_number = do
  hit ← query (λ db. any (λ p. p.id == plan_id) db.plans)
  guard hit Error.plan_not_found
  write (λ db. record db {
    plans = update (λ p. p.id == plan_id) (with_state new_state new_revision_number) db.plans;
  })

-- UNIQUE (plan_id, revision_number).
abbrev pub same_number : PlanRevision → PlanRevision → Bool
same_number r s = r.plan_id == s.plan_id && r.revision_number == s.revision_number

unfoldable pub insert_revision : PlanRevision → Exec Unit
insert_revision revision = do
  taken ← query (λ db. any (same_number revision) db.plan_revisions)
  guard (not taken) Error.integrity_error
  write (λ db. record db { plan_revisions = db.plan_revisions ++ revision ∷ [] })

unfoldable pub find_revision : PlanId → ℕ → Option ProjectId → Db → Option PlanRevision
find_revision plan_id number scope db =
    first
      (λ r. (r.plan_id == plan_id && r.revision_number == number) && in_scope scope r.project_id)
      db.plan_revisions

unfoldable pub get_current_revision : PlanId → Option ProjectId → Exec PlanRevision
unfolding get_plan
get_current_revision plan_id scope = do
  plan ← get_plan plan_id scope
  guard (not (plan.current_revision_number == 0)) Error.plan_revision_not_found
  row ← query (find_revision plan_id plan.current_revision_number scope)
  or_raise Error.plan_revision_not_found row

unfoldable pub update_revision_state : PlanRevisionId → RevisionState → Exec Unit
update_revision_state revision_id new_state = do
  hit ← query (λ db. any (λ r. r.id == revision_id) db.plan_revisions)
  guard hit Error.plan_revision_not_found
  write (λ db. record db {
    plan_revisions =
        update (λ r. r.id == revision_id) (λ r. record r { state = new_state }) db.plan_revisions;
  })

abbrev same_approval : PlanApproval → PlanApproval → Bool
same_approval a b =
    a.revision_id == b.revision_id
    && approval_result_eq a.result b.result
    && text_eq a.idempotency_key b.idempotency_key

-- A repeated (revision_id, result, idempotency_key) is left as it is.
abbrev pub approval_inserted : PlanApproval → Db → Db
approval_inserted approval db = elim (any (same_approval approval) db.plan_approvals) [
  | true ↦ db
  | false ↦ record db { plan_approvals = db.plan_approvals ++ approval ∷ [] }
]

unfoldable pub insert_approval : PlanApproval → Exec Unit
insert_approval approval = write (approval_inserted approval)

unfoldable pub get_approval_for_revision :
    PlanRevisionId → ApprovalResult → Db → Option PlanApproval
get_approval_for_revision revision_id result db =
    first (λ a. a.revision_id == revision_id && approval_result_eq a.result result)
      db.plan_approvals

-- UNIQUE (revision_id): a second handoff for a revision is left out.
abbrev pub handoff_inserted : PlanHandoff → Db → Db
handoff_inserted handoff db =
    elim (any (λ h. h.revision_id == handoff.revision_id) db.plan_handoffs) [
      | true ↦ db
      | false ↦ record db { plan_handoffs = db.plan_handoffs ++ handoff ∷ [] }
    ]

unfoldable pub insert_handoff : PlanHandoff → Exec Unit
insert_handoff handoff = write (handoff_inserted handoff)

unfoldable pub get_handoff_for_revision :
    PlanRevisionId → Option ProjectId → Db → Option PlanHandoff
get_handoff_for_revision revision_id scope db =
    first (λ h. h.revision_id == revision_id && in_scope scope h.project_id) db.plan_handoffs

unfoldable pub find_handoff : PlanHandoffId → Option ProjectId → Db → Option PlanHandoff
find_handoff handoff_id scope db =
    first (λ h. h.id == handoff_id && in_scope scope h.project_id) db.plan_handoffs

-- PlanNotFoundError is what the source raises for a missing handoff too.
unfoldable pub get_handoff : PlanHandoffId → Option ProjectId → Exec PlanHandoff
get_handoff handoff_id scope = do
  row ← query (find_handoff handoff_id scope)
  or_raise Error.plan_not_found row

abbrev pub unclaimed : PlanHandoff → Bool
unclaimed h = elim (h.execution_id) [ none ↦ true | some e ↦ false ]

-- Writes only where `execution_id IS NULL`, and says nothing if no row matches.
unfoldable pub set_handoff_execution_id : PlanHandoffId → ℕ → Exec Unit
set_handoff_execution_id handoff_id execution_id = write (λ db. record db {
  plan_handoffs =
      update (λ h. h.id == handoff_id && unclaimed h)
        (λ h. record h { execution_id = some execution_id }) db.plan_handoffs;
})

abbrev pub take {ℓ} : {A : Type ℓ} → ℕ → List A → List A
take zero xs = []
take (suc n) [] = []
take (suc n) (x ∷ xs) = x ∷ take n xs

unfoldable pub list_unclaimed_handoffs : ProjectId → ℕ → Db → List PlanHandoff
list_unclaimed_handoffs project_id limit db =
    take limit (select (λ h. h.project_id == project_id && unclaimed h) db.plan_handoffs)
