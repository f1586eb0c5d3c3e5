-- ===== src/Examples/Orders.antt =====
-- The order of work of src/zero/app/worker_service.py on the sample execution.
use zero_agent_dev_telegram.Common.{
  ◌≡◌, refl, arith, none, some, [], ◌∷◌, true, false, first, select, update, all,
}
use zero_agent_dev_telegram.Domain.Audit.{Source, Operation, AuditResult}
use zero_agent_dev_telegram.Domain.Execution.{TaskState, AttemptState, Task}
use zero_agent_dev_telegram.Database.{World}
use zero_agent_dev_telegram.Exec.{ok}
use zero_agent_dev_telegram.Repository.Execution.{find_task, list_tasks_for_execution}
use zero_agent_dev_telegram.Repository.Attempts.{list_attempts_for_task}
use zero_agent_dev_telegram.WorkerService.Readiness.{recompute_readiness}
use zero_agent_dev_telegram.WorkerService.Transitions.{
  settle_task, open_call, commit_failure, fail_task,
}
use zero_agent_dev_telegram.WorkerService.Operators.{
  Request, commit_execution_cancellation, commit_requeue, reconcile_blocked_task,
}
use zero_agent_dev_telegram.WorkerService.CancelRounds.{is_finished}
use zero_agent_dev_telegram.WorkerService.Cancelling.{commit_execution_cancellation-ends}
use zero_agent_dev_telegram.WorkerService.Ordered.{
  state_at, has_task_keys, IsOrdered, IsProgress, dependencies_completed,
}
use zero_agent_dev_telegram.WorkerService.Ordered.Kept.{recompute_readiness-IsProgress}
use zero_agent_dev_telegram.WorkerService.Ordered.Settled.{settle_task-IsOrdered}
use zero_agent_dev_telegram.WorkerService.Ordered.Reachable.{
  start, after, claim, fail, GraphReach-IsOrdered,
}
use zero_agent_dev_telegram.WorkerService.Ordered.Overtaken.{requeue_over_completion}
use zero_agent_dev_telegram.Samples.{
  task, execution, db, world, claim as sample_claim, call, request,
}
use zero_agent_dev_telegram.Authorization.{require_permission}
use zero_agent_dev_telegram.Authorization.{authorize}
use zero_agent_dev_telegram.Repository.Execution.{find_execution}
use zero_agent_dev_telegram.WorkerService.Loops.{for_each}
use zero_agent_dev_telegram.WorkerService.Readiness.{recompute_task}
use zero_agent_dev_telegram.WorkerService.Readiness.{dependency_states}
use zero_agent_dev_telegram.WorkerService.Loops.{collect}
use zero_agent_dev_telegram.Repository.Execution.{list_dependencies_for_task}
use zero_agent_dev_telegram.Repository.Execution.{get_task}
use zero_agent_dev_telegram.WorkerService.Readiness.{promote}
use zero_agent_dev_telegram.WorkerService.Snapshots.{snapshot}
use zero_agent_dev_telegram.Repository.Audit.{record_audit}
use zero_agent_dev_telegram.WorkerService.Completion.{advance}
use zero_agent_dev_telegram.WorkerService.Transitions.{after_transition}
use zero_agent_dev_telegram.Authorization.{audit_denial}
use zero_agent_dev_telegram.WorkerService.Completion.{auto_retry_pending}
use zero_agent_dev_telegram.WorkerService.Operators.{commit_reconciliation}
use zero_agent_dev_telegram.Domain.Execution.{execution_transitions}
use zero_agent_dev_telegram.Repository.Attempts.{find_attempt}
use zero_agent_dev_telegram.Repository.Identity.{find_user}
use zero_agent_dev_telegram.Exec.{generate_token}
use zero_agent_dev_telegram.Repository.Attempts.{get_attempt}
use zero_agent_dev_telegram.Repository.Execution.{get_execution}
use zero_agent_dev_telegram.Repository.Attempts.{get_latest_snapshot}
use zero_agent_dev_telegram.Repository.Identity.{get_membership}
use zero_agent_dev_telegram.Repository.Audit.{insert_audit_event}
use zero_agent_dev_telegram.Repository.Attempts.{insert_snapshot}
use zero_agent_dev_telegram.Domain.Execution.{is_valid_execution_transition}
use zero_agent_dev_telegram.Repository.Execution.{list_all_dependencies_for_execution}
use zero_agent_dev_telegram.WorkerService.Completion.{maybe_complete_execution}
use zero_agent_dev_telegram.WorkerService.Operators.{open_request}
use zero_agent_dev_telegram.Domain.Authorization.{permissions_for_role}
use zero_agent_dev_telegram.WorkerService.Leases.{read_task}
use zero_agent_dev_telegram.Repository.Identity.{resolve_scope}
use zero_agent_dev_telegram.WorkerService.Readiness.{revive}
use zero_agent_dev_telegram.Domain.Authorization.{role_has_permission}
use zero_agent_dev_telegram.WorkerService.Completion.{settle_blocked}
use zero_agent_dev_telegram.Exec.{transaction}
use zero_agent_dev_telegram.Repository.Attempts.{update_attempt_state}
use zero_agent_dev_telegram.Repository.Execution.{update_execution_state}
use zero_agent_dev_telegram.Repository.Execution.{update_task_state}
use zero_agent_dev_telegram.WorkerService.Leases.{validate_attempt_identity}
use zero_agent_dev_telegram.WorkerService.Operators.{cancel_attempt}
use zero_agent_dev_telegram.WorkerService.Operators.{cancel_in_graph}
use zero_agent_dev_telegram.Examples.Graphs.{
  ready_task, running_task, new_attempt, after_claim, claim_commits,
}
use zero_agent_dev_telegram.WorkerService.Recovery.{Recovery, commit_recovery}
use zero_agent_dev_telegram.WorkerService.Ordered.Recovered.{commit_recovery-IsOrdered}
use zero_agent_dev_telegram.WorkerService.Recovery.{last}
use zero_agent_dev_telegram.Repository.Execution.{list_project_tasks}
use zero_agent_dev_telegram.WorkerService.Recovery.{mark_unknown}
use zero_agent_dev_telegram.WorkerService.Recovery.{reconcile_state}
use zero_agent_dev_telegram.WorkerService.Recovery.{recover_task}
use zero_agent_dev_telegram.Repository.Execution.{claim_task_atomically}
use zero_agent_dev_telegram.WorkerService.Leases.{commit_claim}
use zero_agent_dev_telegram.Repository.Attempts.{insert_attempt}
use zero_agent_dev_telegram.WorkerService.Leases.{max_attempt_number}

abbrev failed_task : Task
failed_task = task 304 TaskState.failed []

db_has_keys : has_task_keys db.tasks ≡ true
unfolding has_task_keys
db_has_keys = refl

db-IsOrdered : IsOrdered db
unfolding IsOrdered state_at find_task first dependencies_completed list_dependencies_for_task
    select
db-IsOrdered k h = ground arith

abbrev after_failure : World
after_failure =
    (settle_task 0 call execution running_task AttemptState.failed (some "boom") none
      TaskState.failed none none "after_task_fail" Operation.task_fail AuditResult.failure world).1

failure_settles :
    settle_task 0 call execution running_task AttemptState.failed
      (some "boom")
      none
      TaskState.failed
      none
      none
      "after_task_fail"
      Operation.task_fail
      AuditResult.failure
      world
    ≡ (ok tt, after_failure)
unfolding require_permission authorize audit_denial first update select find_execution find_task
    find_attempt permissions_for_role role_has_permission execution_transitions
    is_valid_execution_transition generate_token transaction get_attempt get_latest_snapshot
    insert_snapshot list_attempts_for_task update_attempt_state insert_audit_event record_audit
    get_execution get_task list_all_dependencies_for_execution list_dependencies_for_task
    list_tasks_for_execution update_execution_state update_task_state find_user get_membership
    resolve_scope advance auto_retry_pending maybe_complete_execution settle_blocked read_task
    validate_attempt_identity collect for_each dependency_states promote recompute_readiness
    recompute_task revive snapshot after_transition settle_task
failure_settles = refl

runs_301 : state_at 301 db ≡ some TaskState.running
unfolding state_at find_task first
runs_301 = refl

settle_task-IsOrdered_example : IsOrdered after_failure.db
settle_task-IsOrdered_example =
    settle_task-IsOrdered 0 call execution running_task "after_task_fail" Operation.task_fail
      AuditResult.failure AttemptState.failed (some "boom") none TaskState.failed none none world
      after_failure db_has_keys runs_301 db-IsOrdered failure_settles

abbrev after_recomputation : World
after_recomputation = (recompute_readiness 200 world).1

recomputation_succeeds : recompute_readiness 200 world ≡ (ok tt, after_recomputation)
unfolding recompute_readiness for_each list_tasks_for_execution select recompute_task
    dependency_states collect list_dependencies_for_task get_task find_task first promote
recomputation_succeeds = refl

recompute_readiness-IsProgress_example : IsProgress db after_recomputation.db
recompute_readiness-IsProgress_example =
    recompute_readiness-IsProgress 200 world after_recomputation db_has_keys recomputation_succeeds

failed_304 : state_at 304 db ≡ some TaskState.failed
unfolding state_at find_task first
failed_304 = refl

abbrev after_requeue : World
after_requeue = (commit_requeue request (execution, failed_task) world).1

requeue_commits : commit_requeue request (execution, failed_task) world ≡ (ok tt, after_requeue)
unfolding commit_requeue snapshot find_execution first record_audit
requeue_commits = refl

abbrev after_cancellation : World
after_cancellation = (commit_execution_cancellation request execution world).1

cancellation_commits :
    commit_execution_cancellation request execution world ≡ (ok tt, after_cancellation)
unfolding require_permission authorize audit_denial first update select find_execution find_task
    find_attempt permissions_for_role role_has_permission execution_transitions
    is_valid_execution_transition generate_token transaction get_attempt get_latest_snapshot
    insert_snapshot list_attempts_for_task update_attempt_state insert_audit_event record_audit
    get_execution get_task list_all_dependencies_for_execution list_dependencies_for_task
    list_tasks_for_execution update_execution_state update_task_state find_user get_membership
    resolve_scope advance auto_retry_pending maybe_complete_execution settle_blocked read_task
    validate_attempt_identity collect for_each dependency_states promote recompute_readiness
    recompute_task revive snapshot after_transition settle_task commit_execution_cancellation
    cancel_in_graph cancel_attempt
cancellation_commits = refl

commit_execution_cancellation-ends_example :
    all (λ t. is_finished (state_at t.id after_cancellation.db)) (list_tasks_for_execution 200 db)
    ≡ true
commit_execution_cancellation-ends_example =
    commit_execution_cancellation-ends request execution world after_cancellation db_has_keys
      cancellation_commits

-- After a failure the task that depends on it is blocked, and an operator's reconciliation makes it
-- ready although what it depends on has failed: the recomputation passes over ready tasks.
abbrev blocked_302 : Request
blocked_302 = record request { task_id = 302 }

dependent_is_blocked : state_at 302 after_failure.db ≡ some TaskState.blocked
unfolding require_permission authorize audit_denial first update select find_execution find_task
    find_attempt permissions_for_role role_has_permission execution_transitions
    is_valid_execution_transition generate_token transaction get_attempt get_latest_snapshot
    insert_snapshot list_attempts_for_task update_attempt_state insert_audit_event record_audit
    get_execution get_task list_all_dependencies_for_execution list_dependencies_for_task
    list_tasks_for_execution update_execution_state update_task_state find_user get_membership
    resolve_scope advance auto_retry_pending maybe_complete_execution settle_blocked read_task
    validate_attempt_identity collect for_each dependency_states promote recompute_readiness
    recompute_task revive snapshot after_transition settle_task state_at
dependent_is_blocked = refl

reconciled_is_ready :
    (state_at 302 (reconcile_blocked_task blocked_302 after_failure).1.db ≡ some TaskState.ready)
    × (dependencies_completed 302 (reconcile_blocked_task blocked_302 after_failure).1.db ≡ false)
unfolding require_permission authorize audit_denial first update select find_execution find_task
    find_attempt permissions_for_role role_has_permission execution_transitions
    is_valid_execution_transition generate_token transaction get_attempt get_latest_snapshot
    insert_snapshot list_attempts_for_task update_attempt_state insert_audit_event record_audit
    get_execution get_task list_all_dependencies_for_execution list_dependencies_for_task
    list_tasks_for_execution update_execution_state update_task_state find_user get_membership
    resolve_scope advance auto_retry_pending maybe_complete_execution settle_blocked read_task
    validate_attempt_identity collect for_each dependency_states promote recompute_readiness
    recompute_task revive snapshot after_transition settle_task state_at dependencies_completed
    reconcile_blocked_task open_request commit_reconciliation
reconciled_is_ready = (refl, refl)

-- A restart when the lease of the running task has expired.
abbrev late : World
late = record world { now = 6000 }

abbrev recovery : Recovery
recovery = record { execution_id = 200; project_id = 10; actor_id = 1; source = Source.system }

abbrev after_recovery : World
after_recovery = (commit_recovery 0 recovery late).1

recovery_commits : commit_recovery 0 recovery late ≡ (ok tt, after_recovery)
unfolding require_permission authorize audit_denial first update select find_execution find_task
    find_attempt permissions_for_role role_has_permission execution_transitions
    is_valid_execution_transition generate_token transaction get_attempt get_latest_snapshot
    insert_snapshot list_attempts_for_task update_attempt_state insert_audit_event record_audit
    get_execution get_task list_all_dependencies_for_execution list_dependencies_for_task
    list_tasks_for_execution update_execution_state update_task_state find_user get_membership
    resolve_scope advance auto_retry_pending maybe_complete_execution settle_blocked read_task
    validate_attempt_identity collect for_each dependency_states promote recompute_readiness
    recompute_task revive snapshot after_transition settle_task commit_recovery recover_task
    mark_unknown last list_project_tasks reconcile_state
recovery_commits = refl

commit_recovery-IsOrdered_example : IsOrdered after_recovery.db
commit_recovery-IsOrdered_example =
    commit_recovery-IsOrdered 0 recovery late after_recovery db_has_keys db-IsOrdered
      recovery_commits

-- A claim, then the failure of another task in the world that the claim has left.
abbrev failure_after_claim : World
failure_after_claim = (fail_task 0 call "boom" after_claim).1

abbrev task_after_failure : Task
task_after_failure = record running_task { state = TaskState.failed }

failure_follows_claim :
    fail_task 0 call "boom" after_claim ≡ (ok task_after_failure, failure_after_claim)
unfolding require_permission authorize audit_denial first update select find_execution find_task
    find_attempt permissions_for_role role_has_permission execution_transitions
    is_valid_execution_transition generate_token transaction get_attempt get_latest_snapshot
    insert_snapshot list_attempts_for_task update_attempt_state insert_audit_event record_audit
    get_execution get_task list_all_dependencies_for_execution list_dependencies_for_task
    list_tasks_for_execution update_execution_state update_task_state find_user get_membership
    resolve_scope advance auto_retry_pending maybe_complete_execution settle_blocked read_task
    validate_attempt_identity collect for_each dependency_states promote recompute_readiness
    recompute_task revive snapshot after_transition settle_task commit_claim claim_task_atomically
    insert_attempt max_attempt_number fail_task open_call commit_failure
failure_follows_claim = refl

GraphReach-IsOrdered_example : IsOrdered failure_after_claim.db
GraphReach-IsOrdered_example = GraphReach-IsOrdered db_has_keys db-IsOrdered (
    after (after start (claim sample_claim execution ready_task new_attempt claim_commits))
      (fail 0 call "boom" task_after_failure failure_follows_claim))

-- The failed task of the sample, on which the pending one depends.
abbrev linked : World
linked = record world {
  db = record db { task_dependencies = record { task_id = 302; depends_on_task_id = 304 } ∷ [] };
}

-- The same once the failed task was run again and its dependent let through.
abbrev rerun : World
rerun = record linked {
  db = record linked.db {
    tasks = task 302 TaskState.ready [] ∷ task 304 TaskState.completed [] ∷ [];
  };
}

abbrev requeued_again : World
requeued_again = (commit_requeue request (execution, failed_task) rerun).1

requeue_is_open :
    open_request TaskState.failed request linked ≡ (ok (execution, failed_task), linked)
unfolding open_request read_task require_permission authorize first find_execution find_task
    get_execution get_task
requeue_is_open = refl

late_requeue_commits :
    commit_requeue request (execution, failed_task) rerun ≡ (ok tt, requeued_again)
unfolding require_permission authorize audit_denial first update select find_execution find_task
    find_attempt permissions_for_role role_has_permission execution_transitions
    is_valid_execution_transition generate_token transaction get_attempt get_latest_snapshot
    insert_snapshot list_attempts_for_task update_attempt_state insert_audit_event record_audit
    get_execution get_task list_all_dependencies_for_execution list_dependencies_for_task
    list_tasks_for_execution update_execution_state update_task_state find_user get_membership
    resolve_scope advance auto_retry_pending maybe_complete_execution settle_blocked read_task
    validate_attempt_identity collect for_each dependency_states promote recompute_readiness
    recompute_task revive snapshot after_transition settle_task commit_claim claim_task_atomically
    insert_attempt max_attempt_number commit_requeue
late_requeue_commits = refl

requeue_over_completion_example :
    (failed_task.state ≡ TaskState.failed)
    × (state_at 304 requeued_again.db ≡ some TaskState.ready)
    × ¬ IsOrdered requeued_again.db
unfolding state_at find_task first list_dependencies_for_task select
requeue_over_completion_example =
    requeue_over_completion request execution failed_task linked linked rerun requeued_again 302
      requeue_is_open refl refl refl late_requeue_commits
