-- ===== src/WorkerService/Completion.antt =====
-- `_maybe_complete_execution` and `_auto_retry_pending` of src/zero/app/worker_service.py. The
-- process-local cancellation signals are not modelled.
use zero_agent_dev_telegram.Common.{
  ℕ, Bool, false, not, ◌&&◌, ◌||◌, Option, none, some, List, String, ltb, all, any, is_empty,
  length, if◌then◌else◌, contains_text,
}
use zero_agent_dev_telegram.Domain.Execution.{
  ExecutionId, ExecutionState, TaskState, Task, task_state_eq, is_blocking_task_state,
  is_valid_execution_transition,
}
use zero_agent_dev_telegram.Database.{Db}
use zero_agent_dev_telegram.Exec.{Exec, pure, ◌>>=◌, query}
use zero_agent_dev_telegram.Repository.Execution.{
  get_execution, update_execution_state, list_tasks_for_execution,
}
use zero_agent_dev_telegram.Repository.Attempts.{list_attempts_for_task}
use zero_agent_dev_telegram.WorkerService.Readiness.{is_completed}

abbrev has_budget : ℕ → Db → Task → Bool
has_budget task_max_attempts db task =
    task_state_eq task.state TaskState.failed
    && ltb (length (list_attempts_for_task task.id db)) task_max_attempts

-- Whether a failed task has attempts left; with a maximum of zero none has.
unfoldable pub auto_retry_pending : ℕ → List Task → Db → Bool
auto_retry_pending task_max_attempts tasks db = any (has_budget task_max_attempts db) tasks

abbrev mentions_unknown_outcome : Option String → Bool
mentions_unknown_outcome none = false
mentions_unknown_outcome (some reason) = contains_text "provider outcome unknown" reason

abbrev pub awaits_reconciliation : Task → Bool
awaits_reconciliation task =
    task_state_eq task.state TaskState.blocked && mentions_unknown_outcome task.blocker_reason

abbrev pub is_running_or_ready : Task → Bool
is_running_or_ready task =
    task_state_eq task.state TaskState.running || task_state_eq task.state TaskState.ready

-- The guarded transition of an execution: nothing happens where the state machine forbids it.
unfoldable pub advance : ExecutionId → ExecutionState → String → Exec Unit
unfolding get_execution update_execution_state is_valid_execution_transition
advance execution_id new_state reason = do
  execution ← get_execution execution_id none
  if is_valid_execution_transition execution.state new_state
      then update_execution_state execution_id new_state (some reason)
      else pure tt

-- Nothing runs and something is blocked: `failed` if the graph can never proceed, else `paused`.
unfoldable pub settle_blocked : ℕ → ExecutionId → List Task → Exec Unit
unfolding get_execution update_execution_state is_valid_execution_transition auto_retry_pending
    advance
settle_blocked task_max_attempts execution_id tasks = do
  retry ← query (auto_retry_pending task_max_attempts tasks)
  execution ← get_execution execution_id none
  if retry
      then advance execution_id ExecutionState.paused "awaiting automatic task retry"
      else if (not (any awaits_reconciliation tasks)
            && not (any (λ t. task_state_eq t.state TaskState.pending) tasks))
          && is_valid_execution_transition execution.state ExecutionState.failed
      then update_execution_state execution_id ExecutionState.failed
          (some "task failed; graph cannot proceed")
      else advance execution_id ExecutionState.paused "task failed or blocked"

unfoldable pub maybe_complete_execution : ℕ → ExecutionId → Exec Unit
unfolding advance settle_blocked
maybe_complete_execution task_max_attempts execution_id = do
  tasks ← query (list_tasks_for_execution execution_id)
  if is_empty tasks
      then pure tt
      else if all (λ t. is_completed t.state) tasks
      then advance execution_id ExecutionState.completed ""
      else if any (λ t. is_blocking_task_state t.state) tasks && not (any is_running_or_ready tasks)
      then settle_blocked task_max_attempts execution_id tasks
      else pure tt
