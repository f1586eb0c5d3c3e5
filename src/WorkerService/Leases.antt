-- ===== src/WorkerService/Leases.antt =====
-- Authorization, claims and leases of src/zero/app/worker_service.py.
use zero_agent_dev_telegram.Common.{
  ℕ, ◌+◌, Bool, true, false, not, ◌&&◌, ◌||◌, Option, none, some, List, [], ◌∷◌, String, ◌==◌, ltb,
  text_eq, text_length, if◌then◌else◌,
}
use zero_agent_dev_telegram.Domain.Identity.{UserId, ProjectId}
use zero_agent_dev_telegram.Domain.Authorization.{Permission, AuthorizationReason, deny}
use zero_agent_dev_telegram.Domain.Audit.{Source}
use zero_agent_dev_telegram.Domain.Execution.{
  ExecutionId, TaskId, TaskAttemptId, ExecutionState, TaskState, AttemptState, Execution, Task,
  TaskAttempt, task_state_eq, attempt_is_running,
}
use zero_agent_dev_telegram.Domain.Errors.{Error}
use zero_agent_dev_telegram.Exec.{
  Exec, pure, raise, guard, ◌>>=◌, ◌>>◌, query, read_clock, generate_token, transaction,
}
use zero_agent_dev_telegram.Authorization.{require_permission}
use zero_agent_dev_telegram.Repository.Execution.{
  get_execution, get_task, claim_task_atomically, update_execution_state,
}
use zero_agent_dev_telegram.Repository.Attempts.{
  owned_by, is_live_lease, is_lease_duration, lease_until, get_attempt, list_attempts_for_task,
  insert_attempt, renew_attempt_lease,
}

-- "p_missing" of the refusal stands for the project that was not given.
abbrev or_missing : ProjectId → Option ProjectId → ProjectId
or_missing missing none = missing
or_missing missing (some project) = project

abbrev no_actor : ProjectId → Option UserId → Option ProjectId → Permission → Error
no_actor missing actor project permission =
    Error.authorization
      (deny actor (or_missing missing project) permission none AuthorizationReason.no_actor)

-- A caller without an actor or a project is refused before anything is read.
unfoldable pub require_project_scope :
    (missing : ProjectId) → Option ProjectId → Option UserId → Permission → Source → Exec ProjectId
require_project_scope missing (some project) (some actor) permission source = do
  require_permission actor project permission source
  pure project
require_project_scope missing project actor permission source =
    raise (no_actor missing actor project permission)

-- The task and the execution of a call, in the caller's project; the task must be of the execution.
unfoldable pub read_task : ExecutionId → TaskId → ProjectId → Exec (Execution × Task)
unfolding get_execution get_task
read_task execution_id task_id project = do
  execution ← get_execution execution_id (some project)
  task ← get_task task_id (some project)
  guard (task.execution_id == execution_id && task.project_id == execution.project_id)
      Error.task_not_found
  pure (execution, task)

abbrev pub owner_is : Option String → Option String → Bool
owner_is none stored = false
owner_is (some owner) stored = not (text_eq owner "") && owned_by owner stored

-- The fence of every transition: the attempt is of the task, it runs, its recorded owner calls, and,
-- unless a failure or a cancellation is recorded, its lease is live.
unfoldable pub validate_attempt_identity :
    Task → TaskAttemptId → (lease_owner : Option String) → (require_live_lease : Bool) → Exec Unit
unfolding get_attempt
validate_attempt_identity task attempt_id lease_owner require_live_lease = do
  attempt ← get_attempt attempt_id
  guard (attempt.task_id == task.id && attempt.project_id == task.project_id) Error.attempt_identity
  guard (attempt_is_running attempt.state) Error.invalid_task_transition
  guard (owner_is lease_owner attempt.lease_owner) Error.lease_ownership
  at ← read_clock
  guard (not require_live_lease || is_live_lease at attempt.lease_expires_at) Error.lease_ownership

unfoldable pub max_attempt_number : List TaskAttempt → ℕ
max_attempt_number [] = 0
max_attempt_number (a ∷ rest) =
    let most = max_attempt_number rest in
    if ltb most a.attempt_number then a.attempt_number else most

abbrev rests : ExecutionState → Bool
rests ExecutionState.pending = true
rests ExecutionState.paused = true
rests _ = false

abbrev resume : Execution → Exec Unit
resume execution =
    if rests execution.state
    then update_execution_state execution.id ExecutionState.running (some "")
    else pure tt

pub record Claim : Type 0 where
  pub execution_id : ExecutionId
  pub task_id : TaskId
  pub project_id : ProjectId
  pub actor_id : UserId
  pub lease_owner : String
  pub lease_duration_seconds : ℕ
  pub source : Source

-- What `claim_task` reads before its transaction.
unfoldable pub prepare_claim : Claim → Exec (Execution × Task)
unfolding get_execution get_task
prepare_claim c = do
  require_permission c.actor_id c.project_id Permission.execution_start c.source
  guard (not (text_eq c.lease_owner "" || ltb 256 (text_length c.lease_owner)))
      Error.lease_ownership
  guard (is_lease_duration c.lease_duration_seconds) Error.lease_ownership
  task ← get_task c.task_id (some c.project_id)
  execution ← get_execution c.execution_id (some c.project_id)
  guard (task.execution_id == c.execution_id && task.project_id == execution.project_id)
      Error.task_not_found
  guard (task_state_eq task.state TaskState.ready) Error.invalid_task_transition
  pure (execution, task)

-- The transaction of `claim_task`. The attempts of a task are of its project, for which the source asks
-- too.
unfoldable pub commit_claim : Claim → Execution × Task → Exec TaskAttempt
unfolding transaction claim_task_atomically generate_token insert_attempt update_execution_state
commit_claim c (execution, task) = transaction do
  claim_task_atomically c.execution_id task.id task.project_id
  existing ← query (list_attempts_for_task task.id)
  at ← read_clock
  id ← generate_token
  let attempt : TaskAttempt = record {
    id = id;
    task_id = task.id;
    project_id = task.project_id;
    attempt_number = max_attempt_number existing + 1;
    state = AttemptState.running;
    error_message = none;
    lease_owner = some c.lease_owner;
    lease_expires_at = lease_until at c.lease_duration_seconds;
    completed_at = none;
  }
  insert_attempt attempt
  resume execution
  pure attempt

unfoldable pub claim_task : Claim → Exec TaskAttempt
claim_task c = do found ← prepare_claim c; commit_claim c found

unfoldable pub renew_task_lease : Claim → TaskAttemptId → Exec TaskAttempt
unfolding get_execution get_task get_attempt renew_attempt_lease
renew_task_lease c attempt_id = do
  require_permission c.actor_id c.project_id Permission.execution_start c.source
  execution ← get_execution c.execution_id (some c.project_id)
  task ← get_task c.task_id (some c.project_id)
  guard (task.execution_id == execution.id) Error.task_not_found
  attempt ← get_attempt attempt_id
  guard (attempt.task_id == task.id && attempt.project_id == c.project_id) Error.attempt_identity
  renew_attempt_lease attempt_id
      (record { task_id = task.id; project_id = c.project_id; lease_owner = c.lease_owner })
      c.lease_duration_seconds
  get_attempt attempt_id
