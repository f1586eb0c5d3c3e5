-- ===== src/AgentTypes/Rows.antt =====
-- How the writes of src/zero/persistence/repositories/agent_type_repository.py change the number of
-- running instances of a type, where an id names one instance.
use zero_agent_dev_telegram.Common.{
  ◌≡◌, refl, arith, ℕ, ◌+◌, ◌≤◌, Bool, true, false, not, ◌&&◌, Option, some, List, [], ◌∷◌, ◌++◌,
  ◌==◌, any, first, select, update, length, any-append, any-update, if◌then◌else◌,
}
use zero_agent_dev_telegram.Domain.Execution.{TaskId}
use zero_agent_dev_telegram.Domain.AgentTypes.{
  AgentTypeId, AgentInstanceId, AgentInstanceState, AgentInstance, is_running_instance,
}
use zero_agent_dev_telegram.AgentTypes.Store.{is_instance, runs_as, moved}

abbrev pub running_of : AgentTypeId → List AgentInstance → ℕ
running_of type_id rows = length (select (runs_as type_id) rows)

abbrev pub has_distinct_ids : List AgentInstance → Bool
has_distinct_ids [] = true
has_distinct_ids (i ∷ is) = not (any (is_instance i.id) is) && has_distinct_ids is

abbrev pub one_more : AgentTypeId → AgentTypeId → ℕ → ℕ
one_more a t n = if a == t then n + 1 else n

module _ (type_id : AgentTypeId) where
  -- An update that sets nothing running.
  pub update-running_of :
      (q : AgentInstance → Bool) (f : AgentInstance → AgentInstance)
      → ((i : AgentInstance) → runs_as type_id (f i) ≡ true → runs_as type_id i ≡ true)
      → (rows : List AgentInstance) → running_of type_id (update q f rows) ≤ running_of type_id rows
  unfolding select update
  update-running_of q f back [] = omega arith
  update-running_of q f back (i ∷ is) = ground (arith, back i, update-running_of q f back is)

  pub append-running_of :
      (rows : List AgentInstance) (i : AgentInstance)
      → running_of type_id (rows ++ i ∷ [])
        ≤ one_more i.agent_type_id type_id (running_of type_id rows)
  unfolding select
  append-running_of [] i = ground arith
  append-running_of (j ∷ js) i = ground (arith, append-running_of js i)

  pub append-running_of_idle :
      (rows : List AgentInstance) (i : AgentInstance)
      → is_running_instance i.state ≡ false
      → running_of type_id (rows ++ i ∷ []) ≤ running_of type_id rows
  unfolding select
  append-running_of_idle [] i h = ground arith
  append-running_of_idle (j ∷ js) i h = ground (arith, append-running_of_idle js i)

update-unnamed :
    (id : AgentInstanceId) (f : AgentInstance → AgentInstance) (rows : List AgentInstance)
    → any (is_instance id) rows ≡ false
    → update (is_instance id) f rows ≡ rows
unfolding update
update-unnamed id f [] h = refl
update-unnamed id f (i ∷ is) h = ground (arith, update-unnamed id f is)

-- One instance is set running.
pub start-running_of :
    (type_id : AgentTypeId) (id : AgentInstanceId) (task : Option TaskId)
    (rows : List AgentInstance) (current : AgentInstance)
    → has_distinct_ids rows ≡ true
    → first (is_instance id) rows ≡ some current
    → running_of type_id (update (is_instance id) (moved AgentInstanceState.running task) rows)
      ≤ one_more current.agent_type_id type_id (running_of type_id rows)
unfolding first select update
start-running_of type_id id task [] current h e = absurd (cc)
start-running_of type_id id task (i ∷ is) current h e = ground (
  arith,
  update-unnamed id (moved AgentInstanceState.running task) is,
  start-running_of type_id id task is current,
)

pub update-has_distinct_ids :
    (q : AgentInstance → Bool) (f : AgentInstance → AgentInstance)
    → ((i : AgentInstance) → (f i).id ≡ i.id)
    → (rows : List AgentInstance) → has_distinct_ids rows ≡ true
    → has_distinct_ids (update q f rows) ≡ true
unfolding update
update-has_distinct_ids q f keeps [] h = refl
update-has_distinct_ids q f keeps (i ∷ is) h = ground (
  arith,
  keeps i,
  any-update (is_instance i.id) q f (λ j. ground (arith, keeps j)) is,
  update-has_distinct_ids q f keeps is,
)

pub append-has_distinct_ids :
    (rows : List AgentInstance) (i : AgentInstance)
    → has_distinct_ids rows ≡ true
    → any (is_instance i.id) rows ≡ false
    → has_distinct_ids (rows ++ i ∷ []) ≡ true
append-has_distinct_ids [] i h e = refl
append-has_distinct_ids (j ∷ js) i h e =
    ground (arith, any-append (is_instance j.id) js (i ∷ []), append-has_distinct_ids js i)
