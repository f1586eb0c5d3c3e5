-- ===== src/WorkerService/Readiness.antt =====
-- `_recompute_readiness` of src/zero/app/worker_service.py.
use zero_agent_dev_telegram.Common.{
  Bool, false, Option, none, some, List, String, starts_with, all, any, is_empty, if◌then◌else◌,
}
use zero_agent_dev_telegram.Domain.Execution.{
  ExecutionId, TaskId, TaskState, Task, TaskDependency, task_state_eq, is_blocking_task_state,
}
use zero_agent_dev_telegram.Exec.{Exec, pure, ◌>>=◌, query}
use zero_agent_dev_telegram.Repository.Execution.{
  get_task, update_task_state, list_tasks_for_execution, list_dependencies_for_task,
}
use zero_agent_dev_telegram.WorkerService.Loops.{for_each, collect}

-- `(task.blocker_reason or "").startswith("dependency")`.
abbrev pub is_dependency_block : Option String → Bool
is_dependency_block none = false
is_dependency_block (some reason) = starts_with reason "dependency"

abbrev pub is_completed : TaskState → Bool
is_completed s = task_state_eq s TaskState.completed

abbrev pub state_of_dependency : TaskDependency → Exec TaskState
state_of_dependency d = do task ← get_task d.depends_on_task_id none; pure task.state

unfoldable pub dependency_states : TaskId → Exec (List TaskState)
dependency_states task_id = do
  deps ← query (list_dependencies_for_task task_id)
  collect state_of_dependency deps

-- A task that waits for its dependencies to recover.
unfoldable pub revive : TaskId → List TaskState → Exec Unit
unfolding update_task_state
revive task_id states =
    if is_empty states
    then pure tt
    else if all is_completed states
    then update_task_state task_id TaskState.ready (some "") none
    else if any is_blocking_task_state states
    then pure tt
    else update_task_state task_id TaskState.pending (some "") none

-- A task that has not started; without dependencies it is ready.
unfoldable pub promote : TaskId → List TaskState → Exec Unit
unfolding update_task_state
promote task_id states =
    if all is_completed states
    then update_task_state task_id TaskState.ready none none
    else if any is_blocking_task_state states
    then update_task_state task_id TaskState.blocked (some "dependency failed/blocked/cancelled")
        none
    else pure tt

abbrev pub recompute_in : TaskState → Task → Exec Unit
recompute_in TaskState.blocked task =
    if is_dependency_block task.blocker_reason
    then (do states ← dependency_states task.id; revive task.id states)
    else pure tt
recompute_in TaskState.pending task = do states ← dependency_states task.id; promote task.id states
recompute_in _ task = pure tt

unfoldable pub recompute_task : Task → Exec Unit
recompute_task task = recompute_in task.state task

-- The rows are read once, before the loop; the states of dependencies are read as it runs.
unfoldable pub recompute_readiness : ExecutionId → Exec Unit
recompute_readiness execution_id = do
  tasks ← query (list_tasks_for_execution execution_id)
  for_each recompute_task tasks
