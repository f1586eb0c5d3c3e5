-- ===== src/WorkerService/Operators.antt =====
-- What an operator or the scheduler does to a task graph of src/zero/app/worker_service.py:
-- cancellation of an execution, requeueing, reconciliation and the retry stamp.
use zero_agent_dev_telegram.Common.{none, some, String, not, if◌then◌else◌}
use zero_agent_dev_telegram.Domain.Identity.{UserId, ProjectId}
use zero_agent_dev_telegram.Domain.Authorization.{Permission}
use zero_agent_dev_telegram.Domain.Audit.{Source, Operation, Target, AuditResult}
use zero_agent_dev_telegram.Domain.Execution.{
  ExecutionId, TaskId, ExecutionState, TaskState, AttemptState, Execution, Task, TaskAttempt,
  task_state_eq, is_terminal_task_state, attempt_is_running, is_valid_execution_transition,
}
use zero_agent_dev_telegram.Domain.Errors.{Error}
use zero_agent_dev_telegram.Exec.{Exec, pure, guard, ◌>>=◌, ◌>>◌, query, transaction}
use zero_agent_dev_telegram.Authorization.{require_permission}
use zero_agent_dev_telegram.Repository.Audit.{record_audit}
use zero_agent_dev_telegram.Repository.Execution.{
  get_execution, get_task, update_execution_state, update_task_state, set_task_next_retry_at,
  list_tasks_for_execution,
}
use zero_agent_dev_telegram.Repository.Attempts.{list_attempts_for_task, update_attempt_state}
use zero_agent_dev_telegram.WorkerService.Loops.{for_each}
use zero_agent_dev_telegram.WorkerService.Snapshots.{snapshot}
use zero_agent_dev_telegram.WorkerService.Readiness.{recompute_readiness}
use zero_agent_dev_telegram.WorkerService.Leases.{read_task}

-- The arguments of the methods; the project and the actor are given.
pub record Request : Type 0 where
  pub execution_id : ExecutionId
  pub task_id : TaskId
  pub project_id : ProjectId
  pub actor_id : UserId
  pub source : Source

unfoldable pub cancel_attempt : TaskAttempt → Exec Unit
unfolding update_attempt_state
cancel_attempt attempt =
    if attempt_is_running attempt.state
    then update_attempt_state attempt.id AttemptState.cancelled none none
    else pure tt

-- The body of the loop: a task that is not terminal ends, with each of its running attempts.
unfoldable pub cancel_in_graph : Task → Exec Unit
unfolding update_task_state
cancel_in_graph task = if is_terminal_task_state task.state then pure tt else do
  update_task_state task.id TaskState.cancelled none none
  attempts ← query (list_attempts_for_task task.id)
  for_each cancel_attempt attempts

unfoldable pub commit_execution_cancellation : Request → Execution → Exec Unit
unfolding transaction update_execution_state
commit_execution_cancellation r execution = transaction do
  tasks ← query (list_tasks_for_execution r.execution_id)
  for_each cancel_in_graph tasks
  update_execution_state r.execution_id ExecutionState.cancelled none
  snapshot r.execution_id "after_cancel"
  record_audit execution.project_id r.actor_id r.source Operation.execution_cancel
      (Target.execution execution.id) AuditResult.success (some r.execution_id)

unfoldable pub cancel_execution : Request → Exec Execution
unfolding get_execution
cancel_execution r = do
  require_permission r.actor_id r.project_id Permission.execution_stop r.source
  execution ← get_execution r.execution_id (some r.project_id)
  guard (is_valid_execution_transition execution.state ExecutionState.cancelled)
      Error.invalid_execution_transition
  commit_execution_cancellation r execution
  get_execution r.execution_id (some r.project_id)

-- The checks that requeueing and reconciliation share: the state that the task must be in.
unfoldable pub open_request : TaskState → Request → Exec (Execution × Task)
unfolding read_task
open_request required r = do
  require_permission r.actor_id r.project_id Permission.execution_start r.source
  found ← read_task r.execution_id r.task_id r.project_id
  guard (not (is_terminal_task_state found.1.state)) Error.invalid_task_transition
  guard (task_state_eq found.1.state required) Error.invalid_task_transition
  pure found

abbrev log_request : Request → Execution → Task → Operation → Exec Unit
log_request r execution task operation =
    record_audit execution.project_id r.actor_id r.source operation (Target.task task.id)
      AuditResult.success (some r.execution_id)

unfoldable pub commit_requeue : Request → Execution × Task → Exec Unit
unfolding transaction update_task_state
commit_requeue r (execution, task) = transaction do
  update_task_state task.id TaskState.ready none none
  snapshot r.execution_id "task_requeue"
  log_request r execution task Operation.task_requeue

unfoldable pub requeue_failed_task : Request → Exec Task
unfolding open_request get_task
requeue_failed_task r = do
  found ← open_request TaskState.failed r
  commit_requeue r found
  get_task r.task_id (some r.project_id)

unfoldable pub commit_reconciliation : Request → Execution × Task → Exec Unit
unfolding transaction update_task_state recompute_readiness
commit_reconciliation r (execution, task) = transaction do
  update_task_state task.id TaskState.ready none none
  recompute_readiness r.execution_id
  snapshot r.execution_id "task_reconciled"
  log_request r execution task Operation.task_reconcile

unfoldable pub reconcile_blocked_task : Request → Exec Task
unfolding open_request get_task
reconcile_blocked_task r = do
  found ← open_request TaskState.blocked r
  commit_reconciliation r found
  get_task r.task_id (some r.project_id)

-- The stamp and its audit event are two separate commits.
unfoldable pub schedule_task_retry : Request → (next_retry_at : String) → Exec Task
unfolding get_task set_task_next_retry_at
schedule_task_retry r next_retry_at = do
  require_permission r.actor_id r.project_id Permission.execution_start r.source
  task ← get_task r.task_id (some r.project_id)
  set_task_next_retry_at task.id (some next_retry_at)
  record_audit task.project_id r.actor_id r.source Operation.task_retry_scheduled
      (Target.task task.id) AuditResult.success (some task.execution_id)
  get_task r.task_id (some r.project_id)
