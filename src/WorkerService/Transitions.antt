-- ===== src/WorkerService/Transitions.antt =====
-- The transitions of a running task in src/zero/app/worker_service.py: completion, failure, an
-- unknown provider outcome and cancellation, each under its attempt's lease.
use mathlib.Core.Option
use zero_agent_dev_telegram.Common.{
  ℕ, Bool, true, false, ◌&&◌, Option, none, some, List, [], String, ◌==◌, all, map, truncate,
  if◌then◌else◌, not, ◌∷◌, select, text_eq,
}
use zero_agent_dev_telegram.Domain.Identity.{UserId, ProjectId}
use zero_agent_dev_telegram.Domain.Authorization.{Permission}
use zero_agent_dev_telegram.Domain.Audit.{Source, Operation, Target, AuditResult}
use zero_agent_dev_telegram.Domain.Execution.{
  ExecutionId, TaskId, TaskAttemptId, TaskState, AttemptState, Evidence, Execution, Task,
  task_state_eq, is_terminal_task_state,
}
use zero_agent_dev_telegram.Domain.Artifacts.{ArtifactId}
use zero_agent_dev_telegram.Domain.Errors.{Error}
use zero_agent_dev_telegram.Exec.{Exec, pure, guard, ◌>>=◌, ◌>>◌, transaction}
use zero_agent_dev_telegram.Authorization.{require_permission}
use zero_agent_dev_telegram.Repository.Audit.{record_audit}
use zero_agent_dev_telegram.Repository.Execution.{get_task, update_task_state}
use zero_agent_dev_telegram.Repository.Attempts.{Fence, get_attempt, update_attempt_state}
use zero_agent_dev_telegram.WorkerService.Readiness.{recompute_readiness}
use zero_agent_dev_telegram.WorkerService.Completion.{maybe_complete_execution}
use zero_agent_dev_telegram.WorkerService.Snapshots.{snapshot}
use zero_agent_dev_telegram.WorkerService.Leases.{read_task, validate_attempt_identity}
use zero_agent_dev_telegram.WorkerService.Evidence.{member, validate_evidence_artifacts}

-- The arguments that the four methods share; the project and the actor are given.
pub record TaskCall : Type 0 where
  pub execution_id : ExecutionId
  pub task_id : TaskId
  pub attempt_id : TaskAttemptId
  pub project_id : ProjectId
  pub actor_id : UserId
  pub lease_owner : Option String
  pub source : Source

-- A caller without an owner was refused before.
abbrev pub fence_of : TaskCall → Task → Option Fence
fence_of c task =
    Option.map
      (λ owner. record { task_id = task.id; project_id = task.project_id; lease_owner = owner })
      c.lease_owner

-- What every transition does after its own two updates.
unfoldable pub after_transition :
    (task_max_attempts : ℕ)
    → TaskCall
    → Execution
    → Task
    → (reason : String) → Operation
    → AuditResult
    → Exec Unit
after_transition task_max_attempts c execution task reason operation result = do
  recompute_readiness c.execution_id
  maybe_complete_execution task_max_attempts c.execution_id
  snapshot c.execution_id reason
  record_audit execution.project_id c.actor_id c.source operation (Target.task task.id) result
      (some c.execution_id)

-- The first part of each method, up to the check for a terminal state.
unfoldable pub open_call : Permission → TaskCall → Exec (Execution × Task)
unfolding read_task
open_call permission c = do
  require_permission c.actor_id c.project_id permission c.source
  read_task c.execution_id c.task_id c.project_id

-- Writes an attempt and its task, and lets the rest of the graph follow.
unfoldable pub settle_task :
    ℕ
    → TaskCall
    → Execution
    → Task
    → AttemptState
    → (error_message : Option String) → Option Fence
    → TaskState
    → (blocker_reason : Option String) → Option (List Evidence)
    → (reason : String) → Operation
    → AuditResult
    → Exec Unit
unfolding update_attempt_state update_task_state
settle_task task_max_attempts c execution task attempt_state error_message fence task_state
      blocker_reason completion_evidence reason operation result =
    do
      update_attempt_state c.attempt_id attempt_state error_message fence
      update_task_state task.id task_state blocker_reason completion_evidence
      after_transition task_max_attempts c execution task reason operation result

-- `task.state` as it was read before the transaction.
abbrev pub in_running : Task → Exec Unit
in_running task = guard (task_state_eq task.state TaskState.running) Error.invalid_task_transition

-- `dict.fromkeys`: the first of each label, in order.
unfoldable pub distinct_labels : List String → List String
distinct_labels [] = []
distinct_labels (x ∷ xs) = x ∷ select (λ y. not (text_eq y x)) (distinct_labels xs)

abbrev pub or_provided : List ArtifactId → List String → List Evidence
or_provided [] provided = map Evidence.label (distinct_labels provided)
or_provided ids provided = map Evidence.artifact ids

-- What `complete_task` asks of the attempt where the task is over.
abbrev pub completed_before : TaskCall → Task → Exec Task
completed_before c task = do
  attempt ← get_attempt c.attempt_id
  guard (attempt.task_id == task.id && attempt.project_id == task.project_id) Error.attempt_identity
  pure task

module _ (mentions : (label content : String) → Bool) (task_max_attempts : ℕ) where
  unfoldable pub commit_completion :
      TaskCall → List String → List ArtifactId → Execution → Task → Exec Unit
  unfolding transaction validate_attempt_identity settle_task
  commit_completion c evidence artifact_ids execution task = transaction do
    validate_attempt_identity task c.attempt_id c.lease_owner true
    durable ← validate_evidence_artifacts mentions task c.attempt_id artifact_ids
    guard (all (λ label. member label evidence) task.expected_evidence) Error.missing_evidence
    in_running task
    settle_task task_max_attempts c execution task AttemptState.succeeded none (fence_of c task)
        TaskState.completed none (some (or_provided durable evidence)) "after_task_complete"
        Operation.task_complete AuditResult.success

  -- A task that is completed or cancelled already is returned as it is.
  unfoldable pub complete_task : TaskCall → List String → List ArtifactId → Exec Task
  complete_task c evidence artifact_ids = do
    found ← open_call Permission.execution_start c
    if is_terminal_task_state found.1.state then completed_before c found.1 else do
      commit_completion c evidence artifact_ids found.0 found.1
      get_task c.task_id (some c.project_id)

module _ (task_max_attempts : ℕ) where
  unfoldable pub commit_failure : TaskCall → String → Execution → Task → Exec Unit
  unfolding transaction validate_attempt_identity settle_task
  commit_failure c error_message execution task = do
    in_running task
    transaction do
      validate_attempt_identity task c.attempt_id c.lease_owner false
      settle_task task_max_attempts c execution task AttemptState.failed
          (some (truncate 4096 error_message)) none TaskState.failed none none "after_task_fail"
          Operation.task_fail AuditResult.failure

  unfoldable pub fail_task : TaskCall → (error_message : String) → Exec Task
  fail_task c error_message = do
    found ← open_call Permission.execution_start c
    if is_terminal_task_state found.1.state then pure found.1 else do
      commit_failure c error_message found.0 found.1
      get_task c.task_id (some c.project_id)

  unfoldable pub commit_unknown : TaskCall → String → Execution → Task → Exec Unit
  unfolding transaction validate_attempt_identity settle_task
  commit_unknown c error_message execution task = do
    in_running task
    transaction do
      validate_attempt_identity task c.attempt_id c.lease_owner true
      settle_task task_max_attempts c execution task AttemptState.unknown
          (some (truncate 4096 error_message)) (fence_of c task) TaskState.blocked
          (some "provider outcome unknown; reconciliation required") none "after_provider_unknown"
          Operation.task_provider_unknown AuditResult.error

  unfoldable pub mark_provider_outcome_unknown : TaskCall → (error_message : String) → Exec Task
  mark_provider_outcome_unknown c error_message = do
    found ← open_call Permission.execution_start c
    if is_terminal_task_state found.1.state then pure found.1 else do
      commit_unknown c error_message found.0 found.1
      get_task c.task_id (some c.project_id)

  -- The state of the task is not looked at again: a running attempt is what counts.
  unfoldable pub commit_cancellation : TaskCall → String → Execution → Task → Exec Unit
  unfolding transaction validate_attempt_identity settle_task
  commit_cancellation c reason execution task = transaction do
    validate_attempt_identity task c.attempt_id c.lease_owner false
    settle_task task_max_attempts c execution task AttemptState.cancelled
        (some (truncate 4096 reason)) none TaskState.cancelled none none "after_cancel"
        Operation.task_cancel AuditResult.success

  unfoldable pub cancel_task : TaskCall → (reason : String) → Exec Task
  cancel_task c reason = do
    found ← open_call Permission.execution_stop c
    if is_terminal_task_state found.1.state
        then pure found.1
        else do commit_cancellation c reason found.0 found.1; get_task c.task_id (some c.project_id)
