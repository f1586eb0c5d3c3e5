-- ===== src/WorkerService/Recovery.antt =====
-- Restart recovery of src/zero/app/worker_service.py: expired leases, and the graph that is rebuilt
-- from the tables. The optional agent type repository is not there.
use zero_agent_dev_telegram.Common.{
  ℕ, ◌+◌, Bool, true, false, not, ◌&&◌, Option, none, some, List, [], ◌∷◌, ◌==◌, any, is_empty,
  select, if◌then◌else◌,
}
use zero_agent_dev_telegram.Domain.Identity.{UserId, ProjectId}
use zero_agent_dev_telegram.Domain.Authorization.{Permission}
use zero_agent_dev_telegram.Domain.Audit.{Source, Operation, Target, AuditResult}
use zero_agent_dev_telegram.Domain.Execution.{
  ExecutionId, ExecutionState, TaskState, AttemptState, Execution, Task, TaskAttempt, task_state_eq,
  execution_state_eq, attempt_is_running, execution_transitions,
}
use zero_agent_dev_telegram.Database.{Db, World}
use zero_agent_dev_telegram.Exec.{
  Result, ok, err, Exec, pure, ◌>>=◌, ◌>>◌, query, transaction, read_clock,
}
use zero_agent_dev_telegram.Authorization.{require_permission}
use zero_agent_dev_telegram.Repository.Audit.{record_audit}
use zero_agent_dev_telegram.Repository.Execution.{
  get_execution, update_execution_state, update_task_state, list_project_tasks,
  list_executions_for_project,
}
use zero_agent_dev_telegram.Repository.Attempts.{
  list_attempts_for_task, update_attempt_state, is_live_lease,
}
use zero_agent_dev_telegram.WorkerService.Loops.{for_each}
use zero_agent_dev_telegram.WorkerService.Snapshots.{snapshot}
use zero_agent_dev_telegram.WorkerService.Readiness.{recompute_readiness}
use zero_agent_dev_telegram.WorkerService.Completion.{maybe_complete_execution}

abbrev pub is_running : Task → Bool
is_running task = task_state_eq task.state TaskState.running

abbrev is_ready : Task → Bool
is_ready task = task_state_eq task.state TaskState.ready

abbrev pub running_attempts_of : Task → ProjectId → Db → List TaskAttempt
running_attempts_of task project db =
    select (λ a. a.project_id == project && attempt_is_running a.state)
      (list_attempts_for_task task.id db)

unfoldable pub last : List TaskAttempt → Option TaskAttempt
last [] = none
last (a ∷ rest) = elim (last rest) [ none ↦ some a | some b ↦ some b ]

abbrev pub has_live_lease : ℕ → TaskAttempt → Bool
has_live_lease now a = is_live_lease now a.lease_expires_at

unfoldable pub mark_unknown : Option TaskAttempt → Exec Unit
unfolding update_attempt_state
mark_unknown none = pure tt
mark_unknown (some attempt) = update_attempt_state attempt.id AttemptState.unknown none none

-- The body of the loop: a running task with a live owner is left to it, any other is ready again,
-- and what its last running attempt did is unknown.
unfoldable pub recover_task : ProjectId → Task → Exec Unit
unfolding update_task_state
recover_task project task = if not (is_running task) then pure tt else do
  running ← query (running_attempts_of task project)
  at ← read_clock
  if any (has_live_lease at) running
      then pure tt
      else do mark_unknown (last running); update_task_state task.id TaskState.ready none none

abbrev pub is_over : ExecutionState → Bool
is_over ExecutionState.completed = true
is_over ExecutionState.failed = true
is_over ExecutionState.cancelled = true
is_over _ = false

abbrev can_resume : ExecutionState → Bool
can_resume ExecutionState.paused = true
can_resume ExecutionState.pending = true
can_resume _ = false

-- The state of the execution that its tasks imply: work to do resumes it, none pauses it.
unfoldable pub reconcile_state : ExecutionId → ProjectId → Execution → Exec Unit
unfolding update_execution_state
reconcile_state execution_id project execution = do
  tasks ← query (list_project_tasks execution_id project)
  if any is_ready tasks && can_resume execution.state
      then update_execution_state execution_id ExecutionState.running (some "")
      else if (not (any is_running tasks) && not (any is_ready tasks))
          && execution_state_eq execution.state ExecutionState.running
      then update_execution_state execution_id ExecutionState.paused
          (some "recovered after restart; no running or ready tasks")
      else pure tt

-- The project is given; the execution may be any, also one that is over.
pub record Recovery : Type 0 where
  pub execution_id : ExecutionId
  pub project_id : ProjectId
  pub actor_id : UserId
  pub source : Source

unfoldable pub commit_recovery : (task_max_attempts : ℕ) → Recovery → Exec Unit
unfolding transaction get_execution reconcile_state
commit_recovery task_max_attempts r = transaction do
  get_execution r.execution_id (some r.project_id)
  tasks ← query (list_project_tasks r.execution_id r.project_id)
  for_each (recover_task r.project_id) tasks
  recompute_readiness r.execution_id
  maybe_complete_execution task_max_attempts r.execution_id
  execution ← get_execution r.execution_id (some r.project_id)
  if is_over execution.state then pure tt else reconcile_state r.execution_id r.project_id execution
  snapshot r.execution_id "restart_recovery"
  record_audit execution.project_id r.actor_id r.source Operation.execution_recover
      (Target.execution execution.id) AuditResult.success (some r.execution_id)

unfoldable pub recover_after_restart : (task_max_attempts : ℕ) → Recovery → Exec Execution
unfolding get_execution commit_recovery
recover_after_restart task_max_attempts r = do
  require_permission r.actor_id r.project_id Permission.execution_start r.source
  commit_recovery task_max_attempts r
  get_execution r.execution_id (some r.project_id)

-- The latest running attempt of a running task has no lease in the future, or there is none.
abbrev is_orphaned : ℕ → Option TaskAttempt → Bool
is_orphaned now none = true
is_orphaned now (some latest) = not (has_live_lease now latest)

unfoldable pub needs_recovery : (now : ℕ) → ProjectId → List Task → Db → Bool
unfolding last
needs_recovery now project tasks db =
    any (λ t. is_running t && is_orphaned now (last (running_attempts_of t project db))) tasks

-- EXECUTION_TRANSITIONS has no successor: the states that are over.
unfoldable pub is_final : ExecutionState → Bool
unfolding execution_transitions
is_final state = is_empty (execution_transitions state)

abbrev counted : Result Execution × World → Result ℕ × World
counted (ok execution, w) = (ok 1, w)
counted (err e, w) = (ok 0, w)

-- A failed recovery is logged and does not stop the loop.
unfoldable pub reconcile_one :
    (task_max_attempts : ℕ) → ProjectId → UserId → Source → Execution → Exec ℕ
unfolding recover_after_restart
reconcile_one task_max_attempts project actor source execution =
    if is_final execution.state then pure 0 else do
      tasks ← query (list_project_tasks execution.id project)
      at ← read_clock
      needed ← query (needs_recovery at project tasks)
      if needed
          then (λ w. counted (
              recover_after_restart task_max_attempts
                (record {
                  execution_id = execution.id;
                  project_id = project;
                  actor_id = actor;
                  source = source;
                })
                w))
          else pure 0

unfoldable pub reconcile_each :
    (task_max_attempts : ℕ) → ProjectId → UserId → Source → List Execution → Exec ℕ
unfolding reconcile_one
reconcile_each task_max_attempts project actor source [] = pure 0
reconcile_each task_max_attempts project actor source (execution ∷ rest) = do
  one ← reconcile_one task_max_attempts project actor source execution
  others ← reconcile_each task_max_attempts project actor source rest
  pure (one + others)

unfoldable pub reconcile_expired_leases :
    (task_max_attempts : ℕ) → ProjectId → UserId → Source → Exec ℕ
reconcile_expired_leases task_max_attempts project actor source = do
  require_permission actor project Permission.execution_view_diffs source
  executions ← query (list_executions_for_project project)
  reconcile_each task_max_attempts project actor source executions
