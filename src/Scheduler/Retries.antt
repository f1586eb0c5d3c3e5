-- ===== src/Scheduler/Retries.antt =====
-- The retry pass of `SchedulerService.run_once` of src/zero/app/scheduler_service.py: failed tasks
-- with attempts left are made ready again and stamped.
use zero_agent_dev_telegram.Common.{
  ℕ, ◌+◌, ◌/◌, Bool, true, false, Option, none, some, String, List, [], ◌∷◌, ◌++◌, ltb, leb,
  text_eq, length, if◌then◌else◌,
}
use zero_agent_dev_telegram.Domain.Identity.{UserId, ProjectId}
use zero_agent_dev_telegram.Domain.Authorization.{Permission}
use zero_agent_dev_telegram.Domain.Audit.{Source}
use zero_agent_dev_telegram.Domain.Execution.{
  ExecutionId, TaskId, TaskState, Execution, Task, TaskAttempt, task_state_eq,
}
use zero_agent_dev_telegram.Domain.Errors.{Error}
use zero_agent_dev_telegram.Database.{World}
use zero_agent_dev_telegram.Exec.{Result, ok, err, Exec, pure, ◌>>=◌, ◌>>◌, query, read_clock}
use zero_agent_dev_telegram.Authorization.{require_permission}
use zero_agent_dev_telegram.Repository.Execution.{get_execution, get_task, list_project_tasks}
use zero_agent_dev_telegram.Repository.Attempts.{list_attempts_for_task}
use zero_agent_dev_telegram.WorkerService.Loops.{for_each}
use zero_agent_dev_telegram.WorkerService.Operators.{
  Request, requeue_failed_task, schedule_task_retry,
}
use zero_agent_dev_telegram.Scheduler.Backoff.{compute_retry_delay}

-- The settings of the scheduler, and what it takes from the language: the reading and the printing of
-- instants, the pattern of the hint, the redaction of a message, and the draw of the jitter, which
-- differs from one state of the source of fresh values to the next.
pub record Settings : Type 0 where
  pub task_max_attempts : ℕ
  pub parse_iso_utc : String → Option ℕ
  pub format_utc : ℕ → String
  pub parse_retry_after_seconds : String → Option ℕ
  pub redact : String → String
  pub jitter : ℕ → ℕ → ℕ

-- The caller of a tick.
pub record Caller : Type 0 where
  pub project_id : ProjectId
  pub actor_id : UserId
  pub source : Source

unfoldable pub list_tasks : Caller → ExecutionId → Exec (List Task)
unfolding get_execution list_project_tasks
list_tasks c execution_id = do
  require_permission c.actor_id c.project_id Permission.execution_view_diffs c.source
  get_execution execution_id (some c.project_id)
  query (list_project_tasks execution_id c.project_id)

unfoldable pub list_attempts : Caller → TaskId → Exec (List TaskAttempt)
unfolding get_task list_attempts_for_task
list_attempts c task_id = do
  require_permission c.actor_id c.project_id Permission.execution_view_diffs c.source
  get_task task_id (some c.project_id)
  query (list_attempts_for_task task_id)

abbrev is_past : ℕ → Option ℕ → Bool
is_past now none = true
is_past now (some scheduled) = leb scheduled now

abbrev pub retry_delay_elapsed : Settings → ℕ → Option String → Bool
retry_delay_elapsed s now none = true
retry_delay_elapsed s now (some stamp) = is_past now (s.parse_iso_utc stamp)

-- `max(attempts, key=lambda a: a.attempt_number, default=None)`: the first of the largest.
abbrev larger : TaskAttempt → Option TaskAttempt → TaskAttempt
larger a none = a
larger a (some b) = if ltb a.attempt_number b.attempt_number then b else a

unfoldable pub last_attempt : List TaskAttempt → Option TaskAttempt
last_attempt [] = none
last_attempt (a ∷ rest) = some (larger a (last_attempt rest))

abbrev redacted : Settings → Option String → String
redacted s none = ""
redacted s (some message) = if text_eq message "" then "" else s.redact message

abbrev pub error_text : Settings → Option TaskAttempt → String
error_text s none = ""
error_text s (some attempt) = redacted s attempt.error_message

-- `parse_retry_after_seconds` of a message: no text, no hint.
abbrev hint_of : Settings → String → Option ℕ
hint_of s message = if text_eq message "" then none else s.parse_retry_after_seconds message

abbrev pub request_of : Caller → ExecutionId → TaskId → Request
request_of c execution_id task_id = record {
  execution_id = execution_id;
  task_id = task_id;
  project_id = c.project_id;
  actor_id = c.actor_id;
  source = c.source;
}

unfoldable pub delay_of : Settings → List TaskAttempt → World → ℕ
unfolding last_attempt compute_retry_delay
delay_of s attempts w =
    compute_retry_delay (length attempts + 1) (hint_of s (error_text s (last_attempt attempts)))
      (s.jitter w.next_token)

abbrev pub draw_delay : Settings → List TaskAttempt → Exec ℕ
draw_delay s attempts w = (ok (delay_of s attempts w), w)

-- The body of the pass for a task that has attempts left.
unfoldable pub requeue_and_stamp :
    Settings → Caller → ExecutionId → Task → List TaskAttempt → Exec Unit
unfolding requeue_failed_task schedule_task_retry
requeue_and_stamp s c execution_id task attempts = do
  requeue_failed_task (request_of c execution_id task.id)
  delay_seconds ← draw_delay s attempts
  now ← read_clock
  schedule_task_retry (request_of c execution_id task.id)
      (s.format_utc (now / 1_000_000 + delay_seconds))
  pure tt

abbrev pub is_due : Settings → Task → ℕ → Bool
is_due s task now =
    if task_state_eq task.state TaskState.failed
    then retry_delay_elapsed s now task.next_retry_at
    else false

unfoldable pub retry_due : Settings → Caller → ExecutionId → Task → Exec Unit
unfolding list_attempts requeue_and_stamp
retry_due s c execution_id task = do
  attempts ← list_attempts c task.id
  if ltb (length attempts) s.task_max_attempts
      then requeue_and_stamp s c execution_id task attempts
      else pure tt

unfoldable pub retry_task : Settings → Caller → ExecutionId → Task → Exec Unit
unfolding retry_due
retry_task s c execution_id task = do
  now ← read_clock
  if is_due s task now then retry_due s c execution_id task else pure tt

unfoldable pub retry_tasks : Settings → Caller → ExecutionId → Exec Unit
unfolding list_tasks for_each retry_task
retry_tasks s c execution_id = do
  tasks ← list_tasks c execution_id
  for_each (retry_task s c execution_id) tasks

-- `except (OSError, RuntimeError, ValueError)`: the typed failures derive from RuntimeError; a failed
-- assertion and a violated constraint of the database do not.
abbrev pub is_caught : Error → Bool
is_caught Error.assertion_error = false
is_caught Error.integrity_error = false
is_caught e = true

abbrev after_pass : ExecutionId → Result {0} Unit × World → Result (List ExecutionId) × World
after_pass execution_id (ok u, w) = (ok [], w)
after_pass execution_id (err e, w) = if is_caught e then (ok (execution_id ∷ []), w) else (err e, w)

-- What is written before the exception stays; the execution is named among the errors.
unfoldable pub catch : ExecutionId → Exec Unit → Exec (List ExecutionId)
catch execution_id m w = after_pass execution_id (m w)

unfoldable pub retry_executions : Settings → Caller → List Execution → Exec (List ExecutionId)
unfolding catch retry_tasks
retry_executions s c [] = pure []
retry_executions s c (e ∷ rest) = do
  failed ← catch e.id (retry_tasks s c e.id)
  others ← retry_executions s c rest
  pure (failed ++ others)

-- No budget, no pass.
unfoldable pub retry_pass : Settings → Caller → List Execution → Exec (List ExecutionId)
unfolding retry_executions
retry_pass s c runnable =
    if ltb 0 s.task_max_attempts then retry_executions s c runnable else pure []
