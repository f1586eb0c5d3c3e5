-- ===== src/Repository/Execution.antt =====
-- src/zero/persistence/repositories/execution_repository.py: executions, tasks, dependencies,
-- attempts and snapshots. Rows ordered by `created_at` come in insertion order.
use zero_agent_dev_telegram.Common.{
  ℕ, Bool, true, false, not, ◌&&◌, Option, none, some, List, [], ◌∷◌, ◌++◌, String, ◌==◌, text_eq,
  any, first, select, update, if◌then◌else◌,
}
use zero_agent_dev_telegram.Domain.Identity.{ProjectId}
use zero_agent_dev_telegram.Domain.Plans.{PlanRevisionId}
use zero_agent_dev_telegram.Domain.Execution.{
  ExecutionId, TaskId, ExecutionState, TaskState, Evidence, Execution, Task, TaskDependency,
  is_terminal_task_state, task_state_eq,
}
use zero_agent_dev_telegram.Domain.Errors.{Error}
use zero_agent_dev_telegram.Database.{Db}
use zero_agent_dev_telegram.Exec.{Exec, or_raise, guard, ◌>>=◌, ◌>>◌, query, write, read_clock}
use zero_agent_dev_telegram.Repository.Plan.{in_scope}

-- UNIQUE (plan_revision_id): a second execution of a revision is left out.
abbrev execution_inserted : Execution → Db → Db
execution_inserted execution db =
    elim (any (λ e. e.plan_revision_id == execution.plan_revision_id) db.executions) [
      | true ↦ db
      | false ↦ record db { executions = db.executions ++ execution ∷ [] }
    ]

unfoldable pub insert_execution : Execution → Exec Unit
insert_execution execution = write (execution_inserted execution)

unfoldable pub find_execution : ExecutionId → Option ProjectId → Db → Option Execution
find_execution execution_id scope db =
    first (λ e. e.id == execution_id && in_scope scope e.project_id) db.executions

unfoldable pub get_execution : ExecutionId → Option ProjectId → Exec Execution
get_execution execution_id scope = do
  row ← query (find_execution execution_id scope)
  or_raise Error.execution_not_found row

unfoldable pub get_execution_for_revision : PlanRevisionId → Db → Option Execution
get_execution_for_revision revision_id db =
    first (λ e. e.plan_revision_id == revision_id) db.executions

abbrev pub or_null : String → Option String
or_null reason = if text_eq reason "" then none else some reason

-- `none` keeps the reason that is stored, and the empty text clears it.
abbrev pub execution_with : ExecutionState → Option String → Execution → Execution
execution_with new_state none e = record e { state = new_state }
execution_with new_state (some reason) e = record e {
  state = new_state;
  blocker_reason = or_null reason;
}

unfoldable pub update_execution_state : ExecutionId → ExecutionState → Option String → Exec Unit
update_execution_state execution_id new_state blocker_reason = do
  hit ← query (λ db. any (λ e. e.id == execution_id) db.executions)
  guard hit Error.execution_not_found
  write (λ db. record db {
    executions =
        update (λ e. e.id == execution_id) (execution_with new_state blocker_reason) db.executions;
  })

unfoldable pub insert_task : Task → Exec Unit
insert_task task = write (λ db. record db { tasks = db.tasks ++ task ∷ [] })

unfoldable pub find_task : TaskId → Option ProjectId → Db → Option Task
find_task task_id scope db = first (λ t. t.id == task_id && in_scope scope t.project_id) db.tasks

unfoldable pub get_task : TaskId → Option ProjectId → Exec Task
get_task task_id scope = do row ← query (find_task task_id scope); or_raise Error.task_not_found row

unfoldable pub list_tasks_for_execution : ExecutionId → Db → List Task
list_tasks_for_execution execution_id db = select (λ t. t.execution_id == execution_id) db.tasks

abbrev or_keep : List Evidence → Option (List Evidence) → List Evidence
or_keep stored none = stored
or_keep stored (some given) = given

-- A transition writes the reason that it is given, NULL when it is given none; it keeps the
-- assigned type, and the evidence unless it brings some.
abbrev pub task_with : ℕ → TaskState → Option String → Option (List Evidence) → Task → Task
task_with now new_state blocker_reason completion_evidence t = record t {
  state = new_state;
  blocker_reason = blocker_reason;
  completion_evidence = or_keep t.completion_evidence completion_evidence;
  terminal_state_set_at =
      if is_terminal_task_state new_state then some now else t.terminal_state_set_at;
}

unfoldable pub update_task_state :
    TaskId
    → TaskState
    → (blocker_reason : Option String) → (completion_evidence : Option (List Evidence)) → Exec Unit
update_task_state task_id new_state blocker_reason completion_evidence = do
  hit ← query (λ db. any (λ t. t.id == task_id) db.tasks)
  guard hit Error.task_not_found
  at ← read_clock
  write (λ db. record db {
    tasks =
        update (λ t. t.id == task_id) (task_with at new_state blocker_reason completion_evidence)
          db.tasks;
  })

unfoldable pub set_task_next_retry_at : TaskId → Option String → Exec Unit
set_task_next_retry_at task_id next_retry_at = do
  hit ← query (λ db. any (λ t. t.id == task_id) db.tasks)
  guard hit Error.task_not_found
  write (λ db. record db {
    tasks =
        update (λ t. t.id == task_id) (λ t. record t { next_retry_at = next_retry_at }) db.tasks;
  })

abbrev pub claimable : ExecutionId → TaskId → ProjectId → Task → Bool
claimable execution_id task_id project_id t =
    (t.id == task_id && t.execution_id == execution_id)
    && (t.project_id == project_id && task_state_eq t.state TaskState.ready)

-- The compare-and-set of a claim: `ready` to `running`, in the row itself.
unfoldable pub claim_task_atomically : ExecutionId → TaskId → ProjectId → Exec Unit
claim_task_atomically execution_id task_id project_id = do
  hit ← query (λ db. any (claimable execution_id task_id project_id) db.tasks)
  guard hit Error.invalid_task_transition
  write (λ db. record db {
    tasks =
        update (claimable execution_id task_id project_id)
          (λ t. record t { state = TaskState.running }) db.tasks;
  })

abbrev same_dependency : TaskDependency → TaskDependency → Bool
same_dependency d e = d.task_id == e.task_id && d.depends_on_task_id == e.depends_on_task_id

-- PRIMARY KEY (task_id, depends_on_task_id): a repeated edge is left out.
abbrev dependency_inserted : TaskDependency → Db → Db
dependency_inserted dependency db = elim (any (same_dependency dependency) db.task_dependencies) [
  | true ↦ db
  | false ↦ record db { task_dependencies = db.task_dependencies ++ dependency ∷ [] }
]

-- CHECK (task_id != depends_on_task_id).
unfoldable pub insert_dependency : TaskDependency → Exec Unit
insert_dependency dependency = do
  guard (not (dependency.task_id == dependency.depends_on_task_id)) Error.integrity_error
  write (dependency_inserted dependency)

unfoldable pub list_dependencies_for_task : TaskId → Db → List TaskDependency
list_dependencies_for_task task_id db = select (λ d. d.task_id == task_id) db.task_dependencies

-- JOIN tasks ON task_id = id WHERE execution_id = ?.
unfoldable pub list_all_dependencies_for_execution : ExecutionId → Db → List TaskDependency
list_all_dependencies_for_execution execution_id db =
    select (λ d. any (λ t. t.id == d.task_id && t.execution_id == execution_id) db.tasks)
      db.task_dependencies

-- The same rows with `AND project_id = ?`.
unfoldable pub list_project_tasks : ExecutionId → ProjectId → Db → List Task
list_project_tasks execution_id project_id db =
    select (λ t. t.execution_id == execution_id && t.project_id == project_id) db.tasks

unfoldable pub list_executions_for_project : ProjectId → Db → List Execution
list_executions_for_project project_id db = select (λ e. e.project_id == project_id) db.executions
