-- ===== src/WorkerService/Completing.antt =====
-- What `complete_task` of src/zero/app/worker_service.py asks of a task before it is complete.
use zero_agent_dev_telegram.Common.{
  ◌≡◌, ◌⊎◌, inl, inr, refl, subst, arith, ℕ, Bool, true, false, none, some, List, String, any, all,
  if◌then◌else◌,
}
use zero_agent_dev_telegram.Domain.Authorization.{Permission}
use zero_agent_dev_telegram.Domain.Execution.{
  TaskState, AttemptState, Execution, Task, TaskAttempt, task_state_eq, is_terminal_task_state,
}
use zero_agent_dev_telegram.Domain.Audit.{Operation, AuditResult}
use zero_agent_dev_telegram.Domain.Artifacts.{ArtifactId}
use zero_agent_dev_telegram.Domain.Errors.{Error}
use zero_agent_dev_telegram.Database.{World}
use zero_agent_dev_telegram.Exec.{
  Exec, Result, ok, guard, ◌>>=◌, ◌>>◌, >>=-eq-ok, guard-eq-ok, transaction-eq-ok,
}
use zero_agent_dev_telegram.Authorization.Decision.{permitted, require_permission-refines-policy}
use zero_agent_dev_telegram.Repository.Execution.{find_task, get_task}
use zero_agent_dev_telegram.Repository.Attempts.{get_attempt, is_live_lease}
use zero_agent_dev_telegram.WorkerService.Leases.{validate_attempt_identity}
use zero_agent_dev_telegram.WorkerService.Evidence.{member, validate_evidence_artifacts}
use zero_agent_dev_telegram.WorkerService.Proven.{is_proof, validate_evidence_artifacts-proves}
use zero_agent_dev_telegram.WorkerService.Transitions.{
  TaskCall, open_call, settle_task, completed_before, fence_of, or_provided, commit_completion,
  complete_task,
}
use zero_agent_dev_telegram.WorkerService.Held.{IsHeld, validate_attempt_identity-IsHeld}

-- What makes a task complete.
pub record IsCompletable (mentions : String → String → Bool) (c : TaskCall) (evidence : List String)
    (ids : List ArtifactId) (task : Task) (w : World) : Type 0 where
  pub running : task.state ≡ TaskState.running
  pub attempt : TaskAttempt
  pub held : IsHeld task c.attempt_id c.lease_owner w attempt
  pub live : is_live_lease w.now attempt.lease_expires_at ≡ true
  pub proven :
      all (λ l. any (is_proof mentions w.db task c.attempt_id l) ids) task.expected_evidence ≡ true
  pub provided : all (λ l. member l evidence) task.expected_evidence ≡ true

pub running_only :
    (s : TaskState) → task_state_eq s TaskState.running ≡ true → s ≡ TaskState.running
running_only TaskState.running h = refl
running_only s h = absurd (cc)

module _ (mentions : String → String → Bool) (n : ℕ) (c : TaskCall) (evidence : List String)
    (ids : List ArtifactId) (execution : Execution) (task : Task) where
  abbrev pub write_completion : List ArtifactId → Exec Unit
  unfolding settle_task
  write_completion durable =
      settle_task n c execution task AttemptState.succeeded none (fence_of c task)
        TaskState.completed none (some (or_provided durable evidence)) "after_task_complete"
        Operation.task_complete AuditResult.success

  abbrev pub check_running : List ArtifactId → Exec Unit
  check_running durable = do
    guard (task_state_eq task.state TaskState.running) Error.invalid_task_transition
    write_completion durable

  abbrev pub check_labels : List ArtifactId → Exec Unit
  check_labels durable = do
    guard (all (λ label. member label evidence) task.expected_evidence) Error.missing_evidence
    check_running durable

  abbrev pub check_artifacts : Exec Unit
  check_artifacts = do
    durable ← validate_evidence_artifacts mentions task c.attempt_id ids
    check_labels durable

  pub commit_completion-IsCompletable :
      (w w' : World)
      → commit_completion mentions n c evidence ids execution task w ≡ (ok tt, w')
      → IsCompletable mentions c evidence ids task w
  unfolding commit_completion
  commit_completion-IsCompletable w w' e =
      let (_, v, e1, e2) =
        >>=-eq-ok (validate_attempt_identity task c.attempt_id c.lease_owner true)
          (λ _. check_artifacts) w w'
          (transaction-eq-ok
            (validate_attempt_identity task c.attempt_id c.lease_owner true >> check_artifacts) w w'
            e) in
      let (same, (attempt, held, live)) =
        validate_attempt_identity-IsHeld task c.attempt_id c.lease_owner true w v e1 in
      let (durable, u, e3, e4) =
        >>=-eq-ok (validate_evidence_artifacts mentions task c.attempt_id ids) check_labels v w'
          e2 in
      let (_, _, proven) =
        validate_evidence_artifacts-proves mentions task c.attempt_id ids durable v u e3 in
      let (provided, e5) =
        guard-eq-ok (all (λ label. member label evidence) task.expected_evidence)
          Error.missing_evidence (check_running durable) u w' e4 in
      let (running, _) =
        guard-eq-ok (task_state_eq task.state TaskState.running) Error.invalid_task_transition
          (write_completion durable) u w' e5 in
      record {
        running = running_only task.state running;
        attempt = attempt;
        held = held;
        live = live;
        proven =
            subst
              (λ (x : World).
                all (λ l. any (is_proof mentions x.db task c.attempt_id l) ids)
                  task.expected_evidence
                ≡ true)
              same proven;
        provided = provided;
      }

pub record IsOpened (permission : Permission) (c : TaskCall) (w w' : World) (task : Task)
    : Type 0 where
  pub allowed : permitted c.actor_id c.project_id permission w.db ≡ true
  pub found : find_task c.task_id (some c.project_id) w.db ≡ some task
  pub same : w' ≡ w

pub open_call-IsOpened :
    (permission : Permission) (c : TaskCall) (w w' : World) (execution : Execution) (task : Task)
    → open_call permission c w ≡ (ok (execution, task), w')
    → IsOpened permission c w w' task
unfolding open_call
open_call-IsOpened permission c w w' execution task e =
    ground (arith, require_permission-refines-policy c.actor_id c.project_id permission c.source w)

pub completed_before-same :
    (c : TaskCall) (task t : Task) (w w' : World)
    → completed_before c task w ≡ (ok t, w')
    → (t ≡ task) × (w' ≡ w)
unfolding get_attempt
completed_before-same c task t w w' e = ground arith

pub if-eq :
    {A : Type 0} (b : Bool) (m m' : Exec A) (w : World) (x : Result A × World)
    → (if b then m else m') w ≡ x
    → ((b ≡ true) × (m w ≡ x)) ⊎ ((b ≡ false) × (m' w ≡ x))
if-eq true m m' w x e = inl (refl, e)
if-eq false m m' w x e = inr (refl, e)

module _ (mentions : String → String → Bool) (n : ℕ) (c : TaskCall) (evidence : List String)
    (ids : List ArtifactId) where
  abbrev commit_and_read : Execution × Task → Exec Task
  commit_and_read found = do
    commit_completion mentions n c evidence ids found.0 found.1
    get_task c.task_id (some c.project_id)

  abbrev complete_found : Execution × Task → Exec Task
  complete_found found =
      if is_terminal_task_state found.1.state
      then completed_before c found.1
      else commit_and_read found

  -- Where `complete_task` returns, its caller may start executions and the task is of the caller's
  -- project. A task that was completed or cancelled is returned as it is and nothing is written. Any
  -- other was running, by an attempt of that very task which runs too, whose recorded owner called
  -- under a lease that had not expired; every label that the task expects was provided, and proven
  -- by an artifact which that attempt had made.
  pub complete_task-checks :
      (w w' : World) (t : Task)
      → complete_task mentions n c evidence ids w ≡ (ok t, w')
      → (task : Task) × (find_task c.task_id (some c.project_id) w.db ≡ some task)
        × (permitted c.actor_id c.project_id Permission.execution_start w.db ≡ true)
        × (((is_terminal_task_state task.state ≡ true) × (t ≡ task) × (w' ≡ w))
            ⊎ IsCompletable mentions c evidence ids task w)
  unfolding complete_task
  complete_task-checks w w' t e =
      let ((execution, task), v, opened, rest) =
        >>=-eq-ok (open_call Permission.execution_start c) complete_found w w' e in
      let o = open_call-IsOpened Permission.execution_start c w v execution task opened in
      let rest' : complete_found (execution, task) w ≡ (ok t, w') =
        subst (λ (x : World). complete_found (execution, task) x ≡ (ok t, w')) o.same rest in
      (
        task,
        o.found,
        o.allowed,
        elim (if-eq (is_terminal_task_state task.state) (completed_before c task)
            (commit_and_read (execution, task)) w (ok t, w') rest') [
              | inl (over, e1) ↦
                  let (returned, same) = completed_before-same c task t w w' e1 in
                  inl (over, returned, same)
              | inr (_, e1) ↦
                  let (_, u, committed, _) =
                    >>=-eq-ok (commit_completion mentions n c evidence ids execution task)
                      (λ _. get_task c.task_id (some c.project_id)) w w' e1 in
                  inr (
                    commit_completion-IsCompletable mentions n c evidence ids execution task w u
                      committed)
            ],
      )
