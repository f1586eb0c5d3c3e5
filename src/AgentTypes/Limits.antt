-- ===== src/AgentTypes/Limits.antt =====
-- What the type limits of src/zero/persistence/repositories/agent_type_repository.py and of
-- src/zero/app/agent_type_service.py bound.
use zero_agent_dev_telegram.Common.{
  ◌≡◌, refl, sym, subst, arith, ℕ, ◌≤◌, ◌<◌, Bool, true, false, not, ◌&&◌, ◌||◌, some, none, List,
  ◌==◌, ltb, any, first, update, any_mono, any-of_first, first_holds,
}
use zero_agent_dev_telegram.Domain.Identity.{ProjectId}
use zero_agent_dev_telegram.Domain.AgentTypes.{
  AgentTypeId, AgentInstanceState, AgentType, AgentInstance, is_running_instance,
}
use zero_agent_dev_telegram.AgentTypes.Store.{Pool, is_type, moved}
use zero_agent_dev_telegram.AgentTypes.Rows.{
  running_of, has_distinct_ids, one_more, update-running_of, update-has_distinct_ids,
}

abbrev pub has_room_for : AgentTypeId → ℕ → AgentType → Bool
has_room_for type_id running a = is_type type_id a && not (ltb a.max_concurrent_instances running)

abbrev pub is_within : List AgentType → ℕ → AgentTypeId → Bool
is_within types running type_id = running == 0 || any (has_room_for type_id running) types

-- An instance id names one row, and a type with running instances has a row whose limit they keep.
pub record IsWithin (p : Pool) : Type 0 where
  pub keyed : has_distinct_ids p.agent_instances ≡ true
  pub limited :
      (t : AgentTypeId) → is_within p.agent_types (running_of t p.agent_instances) t ≡ true

is_within_mono :
    (types : List AgentType) (m n : ℕ) (t : AgentTypeId)
    → m ≤ n
    → is_within types n t ≡ true
    → is_within types m t ≡ true
is_within_mono types m n t le h =
    ground (arith, any_mono (has_room_for t n) (has_room_for t m) (λ a. ground arith) types)

-- Rows of which as few as before run.
pub fewer-IsWithin :
    (p p' : Pool)
    → p'.agent_types ≡ p.agent_types
    → has_distinct_ids p'.agent_instances ≡ true
    → ((t : AgentTypeId) → running_of t p'.agent_instances ≤ running_of t p.agent_instances)
    → IsWithin p
    → IsWithin p'
fewer-IsWithin p p' types keyed le h = record {
  keyed = keyed;
  limited = λ t.
      subst (λ (ts : List AgentType). is_within ts (running_of t p'.agent_instances) t ≡ true)
        (sym types)
        (is_within_mono p.agent_types (running_of t p'.agent_instances)
          (running_of t p.agent_instances) t (le t) (h.limited t));
}

-- One row more of a type with room for it.
pub more-IsWithin :
    (p p' : Pool) (a : AgentType) (type_id : AgentTypeId) (project_id : ProjectId)
    → p'.agent_types ≡ p.agent_types
    → has_distinct_ids p'.agent_instances ≡ true
    → ((t : AgentTypeId)
        → running_of t p'.agent_instances ≤ one_more type_id t (running_of t p.agent_instances))
    → first (λ b. is_type type_id b && b.project_id == project_id) p.agent_types ≡ some a
    → running_of type_id p.agent_instances < a.max_concurrent_instances
    → IsWithin p
    → IsWithin p'
more-IsWithin p p' a type_id project_id types keyed le found room h = record {
  keyed = keyed;
  limited = λ t.
      subst (λ (ts : List AgentType). is_within ts (running_of t p'.agent_instances) t ≡ true)
        (sym types) (limited t);
}
  where
    asked : AgentType → Bool
    asked b = is_type type_id b && b.project_id == project_id

    limited : (t : AgentTypeId) → is_within p.agent_types (running_of t p'.agent_instances) t ≡ true
    limited t = ground (
      arith,
      le t,
      h.limited t,
      is_within_mono p.agent_types (running_of t p'.agent_instances)
          (running_of t p.agent_instances) t,
      first_holds asked p.agent_types found,
      any-of_first asked (has_room_for t (running_of t p'.agent_instances)) p.agent_types a found,
    )

-- An update that sets nothing running.
pub update-IsWithin :
    (p : Pool) (q : AgentInstance → Bool) (new_state : AgentInstanceState)
    → is_running_instance new_state ≡ false
    → IsWithin p
    → IsWithin (record p { agent_instances = update q (moved new_state none) p.agent_instances })
update-IsWithin p q new_state ended h =
    fewer-IsWithin p
      (record p { agent_instances = update q (moved new_state none) p.agent_instances }) refl
      (update-has_distinct_ids q (moved new_state none) (λ i. refl) p.agent_instances h.keyed)
      (λ t. update-running_of t q (moved new_state none) (λ i. ground arith) p.agent_instances) h
