-- ===== src/WorkerService/Held.antt =====
-- What the attempt fence of src/zero/app/worker_service.py lets through.
use zero_agent_dev_telegram.Common.{
  ◌≡◌, ◌≢◌, ap, inl, inr, refl, arith, Bool, true, not, ◌||◌, Option, none, some, String, eq_iff,
  Option-cases,
}
use zero_agent_dev_telegram.Domain.Execution.{
  TaskAttemptId, AttemptState, Task, TaskAttempt, attempt_is_running,
}
use zero_agent_dev_telegram.Database.{World}
use zero_agent_dev_telegram.Exec.{ok}
use zero_agent_dev_telegram.Repository.Attempts.{find_attempt, is_live_lease}
use zero_agent_dev_telegram.WorkerService.Leases.{owner_is, validate_attempt_identity}

-- The caller holds the attempt: it is the task's, it runs, and its recorded owner calls.
pub record IsHeld (task : Task) (attempt_id : TaskAttemptId) (lease_owner : Option String)
    (w : World) (attempt : TaskAttempt) : Type 0 where
  pub found : find_attempt attempt_id w.db ≡ some attempt
  pub of_task : attempt.task_id ≡ task.id
  pub of_project : attempt.project_id ≡ task.project_id
  pub runs : attempt.state ≡ AttemptState.running
  pub owner : (o : String) × (lease_owner ≡ some o) × (attempt.lease_owner ≡ some o)

held_missing :
    (task : Task) (attempt_id : TaskAttemptId) (owner : Option String) (live : Bool) (w w' : World)
    → validate_attempt_identity task attempt_id owner live w ≡ (ok tt, w')
    → find_attempt attempt_id w.db ≢ none
unfolding validate_attempt_identity
held_missing task attempt_id owner live w w' e missing = ground arith

owned_text :
    (lease_owner stored : Option String)
    → owner_is lease_owner stored ≡ true
    → (o : String) × (lease_owner ≡ some o) × (stored ≡ some o)
owned_text none stored h = absurd (cc)
owned_text (some o) none h = absurd (ground arith)
owned_text (some o) (some s) h = (o, refl, ap some ((eq_iff s o).0 (ground arith)))

runs_only : (s : AttemptState) → attempt_is_running s ≡ true → s ≡ AttemptState.running
runs_only AttemptState.running h = refl
runs_only s h = absurd (cc)

record IsFenced (task : Task) (lease_owner : Option String) (live : Bool) (w w' : World)
    (attempt : TaskAttempt) : Type 0 where
  same : w' ≡ w
  of_task : attempt.task_id ≡ task.id
  of_project : attempt.project_id ≡ task.project_id
  runs : attempt_is_running attempt.state ≡ true
  owner : owner_is lease_owner attempt.lease_owner ≡ true
  lease : (not live || is_live_lease w.now attempt.lease_expires_at) ≡ true

validate_attempt_identity-IsFenced :
    (task : Task) (attempt_id : TaskAttemptId) (owner : Option String) (live : Bool) (w w' : World)
    (attempt : TaskAttempt)
    → find_attempt attempt_id w.db ≡ some attempt
    → validate_attempt_identity task attempt_id owner live w ≡ (ok tt, w')
    → IsFenced task owner live w w' attempt
unfolding validate_attempt_identity
validate_attempt_identity-IsFenced task attempt_id owner live w w' attempt found e = ground arith

-- The fence that every transition of a running task passes.
pub validate_attempt_identity-IsHeld :
    (task : Task) (attempt_id : TaskAttemptId) (owner : Option String) (live : Bool) (w w' : World)
    → validate_attempt_identity task attempt_id owner live w ≡ (ok tt, w')
    → (w' ≡ w)
      × ((attempt : TaskAttempt) × IsHeld task attempt_id owner w attempt
          × ((not live || is_live_lease w.now attempt.lease_expires_at) ≡ true))
validate_attempt_identity-IsHeld task attempt_id owner live w w' e =
    elim (Option-cases (find_attempt attempt_id w.db)) [
      | inl missing ↦ absurd (held_missing task attempt_id owner live w w' e missing)
      | inr (attempt, found) ↦
          let f =
            validate_attempt_identity-IsFenced task attempt_id owner live w w' attempt found e in
          (
            f.same,
            (
              attempt,
              record {
                found = found;
                of_task = f.of_task;
                of_project = f.of_project;
                runs = runs_only attempt.state f.runs;
                owner = owned_text owner attempt.lease_owner f.owner;
              },
              f.lease,
            ),
          )
    ]
