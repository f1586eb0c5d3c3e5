-- ===== src/Examples/Graphs.antt =====
-- Task graphs of src/zero/app/worker_service.py on the sample execution.
use zero_agent_dev_telegram.Common.{
  ◌≡◌, ◌⊎◌, refl, none, some, [], ◌∷◌, ◌++◌, Bool, true, false, String, first, select, update, any,
  all, ltb,
}
use zero_agent_dev_telegram.Domain.Authorization.{Permission}
use zero_agent_dev_telegram.Domain.Execution.{
  TaskState, AttemptState, LeaseText, Evidence, Task, TaskAttempt, is_terminal_task_state,
}
use zero_agent_dev_telegram.Domain.Errors.{Error}
use zero_agent_dev_telegram.Database.{World}
use zero_agent_dev_telegram.Exec.{ok, err}
use zero_agent_dev_telegram.Authorization.Decision.{permitted}
use zero_agent_dev_telegram.Repository.Execution.{find_task, list_tasks_for_execution}
use zero_agent_dev_telegram.Repository.Attempts.{lease_until, list_attempts_for_task}
use zero_agent_dev_telegram.WorkerService.Leases.{Claim, commit_claim, claim_task}
use zero_agent_dev_telegram.WorkerService.Claiming.{
  taken, as_running, claim_once, claim_task-effect,
}
use zero_agent_dev_telegram.WorkerService.Readiness.{recompute_readiness}
use zero_agent_dev_telegram.WorkerService.Evidence.{distinct, validate_evidence_artifacts}
use zero_agent_dev_telegram.WorkerService.Proven.{is_proof, validate_evidence_artifacts-proves}
use zero_agent_dev_telegram.WorkerService.Transitions.{complete_task, settle_task}
use zero_agent_dev_telegram.WorkerService.Completing.{IsCompletable, complete_task-checks}
use zero_agent_dev_telegram.WorkerService.Ordered.{state_at}
use zero_agent_dev_telegram.Samples.{task, execution, db, world, claim, call}
use zero_agent_dev_telegram.WorkerService.Leases.{max_attempt_number}
use zero_agent_dev_telegram.WorkerService.Leases.{prepare_claim}
use zero_agent_dev_telegram.Authorization.{require_permission}
use zero_agent_dev_telegram.Authorization.{authorize}
use zero_agent_dev_telegram.Common.{text_length}
use zero_agent_dev_telegram.Repository.Execution.{find_execution}
use zero_agent_dev_telegram.WorkerService.Evidence.{examine}
use zero_agent_dev_telegram.WorkerService.Evidence.{find_artifact}
use zero_agent_dev_telegram.WorkerService.Evidence.{matching_rows}
use zero_agent_dev_telegram.WorkerService.Evidence.{satisfy}
use zero_agent_dev_telegram.WorkerService.Evidence.{proves}
use zero_agent_dev_telegram.WorkerService.Evidence.{kinds_of}
use zero_agent_dev_telegram.WorkerService.Loops.{for_each}
use zero_agent_dev_telegram.WorkerService.Readiness.{recompute_task}
use zero_agent_dev_telegram.WorkerService.Readiness.{dependency_states}
use zero_agent_dev_telegram.WorkerService.Loops.{collect}
use zero_agent_dev_telegram.Repository.Execution.{list_dependencies_for_task}
use zero_agent_dev_telegram.Repository.Execution.{get_task}
use zero_agent_dev_telegram.WorkerService.Readiness.{promote}
use zero_agent_dev_telegram.WorkerService.Snapshots.{snapshot}
use zero_agent_dev_telegram.Repository.Audit.{record_audit}
use zero_agent_dev_telegram.WorkerService.Completion.{advance}
use zero_agent_dev_telegram.WorkerService.Transitions.{after_transition}
use zero_agent_dev_telegram.WorkerService.Evidence.{all_labels}
use zero_agent_dev_telegram.Authorization.{audit_denial}
use zero_agent_dev_telegram.WorkerService.Completion.{auto_retry_pending}
use zero_agent_dev_telegram.WorkerService.Transitions.{commit_completion}
use zero_agent_dev_telegram.WorkerService.Evidence.{evidence_kinds}
use zero_agent_dev_telegram.Domain.Execution.{execution_transitions}
use zero_agent_dev_telegram.Repository.Attempts.{find_attempt}
use zero_agent_dev_telegram.Repository.Identity.{find_user}
use zero_agent_dev_telegram.Exec.{generate_token}
use zero_agent_dev_telegram.Repository.Attempts.{get_attempt}
use zero_agent_dev_telegram.Repository.Execution.{get_execution}
use zero_agent_dev_telegram.Repository.Attempts.{get_latest_snapshot}
use zero_agent_dev_telegram.Repository.Identity.{get_membership}
use zero_agent_dev_telegram.Repository.Audit.{insert_audit_event}
use zero_agent_dev_telegram.Repository.Attempts.{insert_snapshot}
use zero_agent_dev_telegram.Domain.Execution.{is_valid_execution_transition}
use zero_agent_dev_telegram.Repository.Execution.{list_all_dependencies_for_execution}
use zero_agent_dev_telegram.WorkerService.Completion.{maybe_complete_execution}
use zero_agent_dev_telegram.WorkerService.Transitions.{open_call}
use zero_agent_dev_telegram.Domain.Authorization.{permissions_for_role}
use zero_agent_dev_telegram.WorkerService.Leases.{read_task}
use zero_agent_dev_telegram.Repository.Identity.{resolve_scope}
use zero_agent_dev_telegram.WorkerService.Readiness.{revive}
use zero_agent_dev_telegram.Domain.Authorization.{role_has_permission}
use zero_agent_dev_telegram.WorkerService.Completion.{settle_blocked}
use zero_agent_dev_telegram.Exec.{transaction}
use zero_agent_dev_telegram.Repository.Attempts.{update_attempt_state}
use zero_agent_dev_telegram.Repository.Execution.{update_execution_state}
use zero_agent_dev_telegram.Repository.Execution.{update_task_state}
use zero_agent_dev_telegram.WorkerService.Leases.{validate_attempt_identity}

abbrev pub ready_task : Task
ready_task = task 303 TaskState.ready []

abbrev pub running_task : Task
running_task = task 301 TaskState.running ("diff" ∷ [])

abbrev pub new_attempt : TaskAttempt
new_attempt = record {
  id = 900;
  task_id = 303;
  project_id = 10;
  attempt_number = 1;
  state = AttemptState.running;
  error_message = none;
  lease_owner = some "worker";
  lease_expires_at = some (LeaseText.instant 60001000);
  completed_at = none;
}

abbrev pub after_claim : World
after_claim = (commit_claim claim (execution, ready_task) world).1

pub claim_commits : commit_claim claim (execution, ready_task) world ≡ (ok new_attempt, after_claim)
unfolding commit_claim max_attempt_number list_attempts_for_task select
claim_commits = refl

abbrev rival : Claim
rival = record claim { lease_owner = "other worker" }

claim_once_example :
    commit_claim rival (execution, ready_task) after_claim
    ≡ (err Error.invalid_task_transition, after_claim)
claim_once_example =
    claim_once claim rival execution execution ready_task world after_claim new_attempt refl
      claim_commits

claim_succeeds : claim_task claim world ≡ (ok new_attempt, (claim_task claim world).1)
unfolding claim_task prepare_claim require_permission authorize first text_length find_task
    find_execution commit_claim max_attempt_number list_attempts_for_task select
claim_succeeds = refl

claim_task-effect_example :
    (t : Task) × (permitted 1 10 Permission.execution_start db ≡ true)
    × (find_task 303 (some 10) db ≡ some t)
    × (t.state ≡ TaskState.ready)
    × (t.execution_id ≡ 200)
    × ((claim_task claim world).1.db.tasks ≡ update (taken claim t) as_running db.tasks)
    × ((claim_task claim world).1.db.task_attempts ≡ db.task_attempts ++ new_attempt ∷ [])
    × (303 ≡ t.id)
    × (AttemptState.running ≡ AttemptState.running)
    × (new_attempt.lease_owner ≡ some claim.lease_owner)
    × (some (LeaseText.instant 60001000) ≡ lease_until 1000 60)
    × (all (λ b. ltb b.attempt_number 1) (list_attempts_for_task t.id db) ≡ true)
claim_task-effect_example =
    claim_task-effect claim world (claim_task claim world).1 new_attempt claim_succeeds

-- Labels are compared as whole texts.
abbrev mentions : String → String → Bool
mentions label content = false

evidence_is_valid :
    validate_evidence_artifacts mentions running_task 401 (501 ∷ []) world ≡ (ok (501 ∷ []), world)
unfolding validate_evidence_artifacts distinct select examine find_artifact first matching_rows
    satisfy proves kinds_of
evidence_is_valid = refl

validate_evidence_artifacts-proves_example :
    (501 ∷ [] ≡ distinct (501 ∷ []))
    × (world ≡ world)
    × (all (λ l. any (is_proof mentions db running_task 401 l) (501 ∷ [])) ("diff" ∷ []) ≡ true)
validate_evidence_artifacts-proves_example =
    validate_evidence_artifacts-proves mentions running_task 401 (501 ∷ []) (501 ∷ []) world world
      evidence_is_valid

abbrev completed_task : Task
completed_task = record running_task {
  state = TaskState.completed;
  completion_evidence = Evidence.artifact 501 ∷ [];
  terminal_state_set_at = some 1000;
}

abbrev after_completion : World
after_completion = (complete_task mentions 0 call ("diff" ∷ []) (501 ∷ []) world).1

completion_succeeds :
    complete_task mentions 0 call ("diff" ∷ []) (501 ∷ []) world
    ≡ (ok completed_task, after_completion)
unfolding complete_task open_call require_permission authorize audit_denial first update select
    find_execution find_task commit_completion find_attempt validate_evidence_artifacts distinct
    examine find_artifact matching_rows satisfy proves kinds_of evidence_kinds all_labels
    permissions_for_role role_has_permission execution_transitions is_valid_execution_transition
    generate_token transaction get_attempt get_latest_snapshot insert_snapshot
    list_attempts_for_task update_attempt_state insert_audit_event record_audit get_execution
    get_task list_all_dependencies_for_execution list_dependencies_for_task list_tasks_for_execution
    update_execution_state update_task_state find_user get_membership resolve_scope advance
    auto_retry_pending maybe_complete_execution settle_blocked read_task validate_attempt_identity
    collect for_each dependency_states promote recompute_readiness recompute_task revive snapshot
    after_transition settle_task
completion_succeeds = refl

complete_task-checks_example :
    (t : Task) × (find_task 301 (some 10) db ≡ some t)
    × (permitted 1 10 Permission.execution_start db ≡ true)
    × (((is_terminal_task_state t.state ≡ true) × (completed_task ≡ t) × (after_completion ≡ world))
        ⊎ IsCompletable mentions call ("diff" ∷ []) (501 ∷ []) t world)
complete_task-checks_example =
    complete_task-checks mentions 0 call ("diff" ∷ []) (501 ∷ []) world after_completion
      completed_task completion_succeeds

-- A task that becomes complete lets the task that waits for it through.
dependent_is_ready : state_at 302 after_completion.db ≡ some TaskState.ready
unfolding complete_task open_call require_permission authorize audit_denial first update select
    find_execution find_task commit_completion find_attempt validate_evidence_artifacts distinct
    examine find_artifact matching_rows satisfy proves kinds_of evidence_kinds all_labels
    permissions_for_role role_has_permission execution_transitions is_valid_execution_transition
    generate_token transaction get_attempt get_latest_snapshot insert_snapshot
    list_attempts_for_task update_attempt_state insert_audit_event record_audit get_execution
    get_task list_all_dependencies_for_execution list_dependencies_for_task list_tasks_for_execution
    update_execution_state update_task_state find_user get_membership resolve_scope advance
    auto_retry_pending maybe_complete_execution settle_blocked read_task validate_attempt_identity
    collect for_each dependency_states promote recompute_readiness recompute_task revive snapshot
    after_transition settle_task state_at
dependent_is_ready = refl
