-- ===== src/WorkerService/Ordered.antt =====
-- The order of work in a task graph of src/zero/app/worker_service.py: which tasks have been let
-- through, and that their dependencies were complete by then.
pub mod Progress
pub mod Rows
pub mod Recomputed
pub mod Kept
pub mod Others
pub mod Settled
pub mod Started
pub mod Calls
pub mod Endings
pub mod Overtaken
pub mod Rounds
pub mod Recovered
pub mod Reachable
use zero_agent_dev_telegram.Common.{
  ◌≡◌, Bool, true, false, not, ◌&&◌, ◌||◌, Option, none, some, List, [], ◌∷◌, ◌==◌, any, all,
}
use zero_agent_dev_telegram.Domain.Execution.{TaskId, TaskState, Task, TaskDependency}
use zero_agent_dev_telegram.Database.{Db}
use zero_agent_dev_telegram.Repository.Execution.{find_task, list_dependencies_for_task}
use zero_agent_dev_telegram.WorkerService.Readiness.{is_completed}

abbrev pub state_of_row : Option Task → Option TaskState
state_of_row none = none
state_of_row (some t) = some t.state

-- The state of the row that a task's id names.
unfoldable pub state_at : TaskId → Db → Option TaskState
state_at k db = state_of_row (find_task k none db)

abbrev pub is_done : Option TaskState → Bool
is_done none = false
is_done (some s) = is_completed s

abbrev pub was_let_through : TaskState → Bool
was_let_through TaskState.ready = true
was_let_through TaskState.running = true
was_let_through TaskState.completed = true
was_let_through TaskState.failed = true
was_let_through _ = false

-- Ready, running, completed or failed: work on the task may have begun.
abbrev pub is_engaged : Option TaskState → Bool
is_engaged none = false
is_engaged (some s) = was_let_through s

abbrev pub is_met : Db → TaskDependency → Bool
is_met db d = is_done (state_at d.depends_on_task_id db)

unfoldable pub dependencies_completed : TaskId → Db → Bool
dependencies_completed k db = all (is_met db) (list_dependencies_for_task k db)

-- No task has been let through whose dependencies are not all complete.
unfoldable pub IsOrdered : Db → Type 0
IsOrdered db = (k : TaskId) → is_engaged (state_at k db) ≡ true → dependencies_completed k db ≡ true

-- PRIMARY KEY (id) of `tasks`.
unfoldable pub has_task_keys : List Task → Bool
has_task_keys [] = true
has_task_keys (t ∷ rest) = not (any (λ u. u.id == t.id) rest) && has_task_keys rest

-- What a change of the graph may do: it keeps the edges, the keys and what is complete, and lets a task
-- through only where all it depends on is complete.
pub record IsProgress (before after : Db) : Type 0 where
  pub edges : after.task_dependencies ≡ before.task_dependencies
  pub keys : has_task_keys before.tasks ≡ true → has_task_keys after.tasks ≡ true
  pub done : (k : TaskId) → is_done (state_at k after) ≡ is_done (state_at k before)
  pub engaged :
      (k : TaskId)
      → is_engaged (state_at k after) ≡ true
      → (is_engaged (state_at k before) || dependencies_completed k before) ≡ true

-- What a transition may do to a graph: it keeps the edges, takes nothing back that is complete, and
-- lets a task through only where all it depends on is complete afterwards.
pub record IsGrowth (before after : Db) : Type 0 where
  pub edges : after.task_dependencies ≡ before.task_dependencies
  pub keys : has_task_keys before.tasks ≡ true → has_task_keys after.tasks ≡ true
  pub done : (k : TaskId) → is_done (state_at k before) ≡ true → is_done (state_at k after) ≡ true
  pub engaged :
      (k : TaskId)
      → is_engaged (state_at k after) ≡ true
      → (is_engaged (state_at k before) || dependencies_completed k after) ≡ true
