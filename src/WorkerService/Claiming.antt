-- ===== src/WorkerService/Claiming.antt =====
-- What `claim_task` of src/zero/app/worker_service.py does to the tables.
use zero_agent_dev_telegram.Common.{
  ◌≤◌, all, ltb, subst, ◌≡◌, refl, arith, ℕ, ◌+◌, Bool, true, false, some, List, any, update,
  any-update_self, ◌∷◌, [], ◌++◌,
}
use zero_agent_dev_telegram.Domain.Authorization.{Permission}
use zero_agent_dev_telegram.Authorization.Decision.{permitted, require_permission-refines-policy}
use zero_agent_dev_telegram.Domain.Execution.{
  TaskState, AttemptState, Execution, Task, TaskAttempt, task_state_eq,
}
use zero_agent_dev_telegram.Domain.Errors.{Error}
use zero_agent_dev_telegram.Database.{World}
use zero_agent_dev_telegram.Exec.{>>=-eq-ok, ok, err}
use zero_agent_dev_telegram.Repository.Execution.{find_task, claimable}
use zero_agent_dev_telegram.Repository.Attempts.{list_attempts_for_task, lease_until}
use zero_agent_dev_telegram.WorkerService.Leases.{
  Claim, prepare_claim, commit_claim, claim_task, max_attempt_number,
}

abbrev pub taken : Claim → Task → Task → Bool
taken c task = claimable c.execution_id task.id task.project_id

abbrev pub as_running : Task → Task
as_running t = record t { state = TaskState.running }

-- A claim was decided by the rows: one was ready, each ready one is running now, and the new attempt
-- has the next number and a lease from now on.
pub record IsClaimed (c : Claim) (task : Task) (w w' : World) (attempt : TaskAttempt) : Type 0 where
  pub was_ready : any (taken c task) w.db.tasks ≡ true
  pub tasks : w'.db.tasks ≡ update (taken c task) as_running w.db.tasks
  pub edges : w'.db.task_dependencies ≡ w.db.task_dependencies
  pub attempts : w'.db.task_attempts ≡ w.db.task_attempts ++ attempt ∷ []
  pub number : attempt.attempt_number ≡ max_attempt_number (list_attempts_for_task task.id w.db) + 1
  pub of_task : attempt.task_id ≡ task.id
  pub runs : attempt.state ≡ AttemptState.running
  pub owner : attempt.lease_owner ≡ some c.lease_owner
  pub lease : attempt.lease_expires_at ≡ lease_until w.now c.lease_duration_seconds

pub commit_claim-IsClaimed :
    (c : Claim) (execution : Execution) (task : Task) (w w' : World) (attempt : TaskAttempt)
    → commit_claim c (execution, task) w ≡ (ok attempt, w')
    → IsClaimed c task w w' attempt
unfolding commit_claim list_attempts_for_task
commit_claim-IsClaimed c execution task w w' attempt returned = ground arith

none_left :
    (c d : Claim) (task : Task) (w w' : World)
    → d.execution_id ≡ c.execution_id
    → w'.db.tasks ≡ update (taken c task) as_running w.db.tasks
    → any (taken d task) w'.db.tasks ≡ false
none_left c d task w w' same e =
    rw (e, same) (any-update_self (taken c task) as_running (λ x. ground arith) w.db.tasks)

-- Of two callers that claim the same ready task of an execution, whatever each has read before, the
-- one whose transaction comes second is refused, and nothing at all is written.
pub claim_once :
    (c d : Claim) (e f : Execution) (task : Task) (w w' : World) (attempt : TaskAttempt)
    → d.execution_id ≡ c.execution_id
    → commit_claim c (e, task) w ≡ (ok attempt, w')
    → commit_claim d (f, task) w' ≡ (err Error.invalid_task_transition, w')
unfolding commit_claim
claim_once c d e f task w w' attempt same returned =
    let r = commit_claim-IsClaimed c e task w w' attempt returned in
    ground (arith, none_left c d task w w' same r.tasks)

max_attempt_number-bounds :
    (xs : List TaskAttempt) → all (λ b. ltb b.attempt_number (max_attempt_number xs + 1)) xs ≡ true
unfolding max_attempt_number
max_attempt_number-bounds xs = within xs (max_attempt_number xs) (omega arith)
  where
    within :
        (ys : List TaskAttempt) (n : ℕ)
        → max_attempt_number ys ≤ n
        → all (λ b. ltb b.attempt_number (n + 1)) ys ≡ true
    within [] n h = refl
    within (y ∷ ys) n h = ground (arith, within ys n)

record IsPrepared (c : Claim) (w w' : World) (execution : Execution) (task : Task) : Type 0 where
  allowed : permitted c.actor_id c.project_id Permission.execution_start w.db ≡ true
  found : find_task c.task_id (some c.project_id) w.db ≡ some task
  ready : task.state ≡ TaskState.ready
  of_execution : task.execution_id ≡ c.execution_id
  same : w' ≡ w

is_ready-eq : (s : TaskState) → task_state_eq s TaskState.ready ≡ true → s ≡ TaskState.ready
is_ready-eq TaskState.ready h = refl
is_ready-eq s h = absurd (cc)

prepare_claim-IsPrepared :
    (c : Claim) (w w' : World) (execution : Execution) (task : Task)
    → prepare_claim c w ≡ (ok (execution, task), w')
    → IsPrepared c w w' execution task
unfolding prepare_claim
prepare_claim-IsPrepared c w w' execution task e = ground (
  arith,
  require_permission-refines-policy c.actor_id c.project_id Permission.execution_start c.source w,
)

-- A claim that succeeds was made by someone who may start executions, of a task that was ready in
-- its row; each such row is running now, and the attempt it returns is stored behind the others,
-- runs, has a number above that of every earlier attempt of the task, and a lease of the caller
-- that lasts for the requested time from now on.
pub claim_task-effect :
    (c : Claim) (w w' : World) (attempt : TaskAttempt)
    → claim_task c w ≡ (ok attempt, w')
    → (task : Task) × (permitted c.actor_id c.project_id Permission.execution_start w.db ≡ true)
      × (find_task c.task_id (some c.project_id) w.db ≡ some task)
      × (task.state ≡ TaskState.ready)
      × (task.execution_id ≡ c.execution_id)
      × (w'.db.tasks ≡ update (taken c task) as_running w.db.tasks)
      × (w'.db.task_attempts ≡ w.db.task_attempts ++ attempt ∷ [])
      × (attempt.task_id ≡ task.id)
      × (attempt.state ≡ AttemptState.running)
      × (attempt.lease_owner ≡ some c.lease_owner)
      × (attempt.lease_expires_at ≡ lease_until w.now c.lease_duration_seconds)
      × (all
            (λ b. ltb b.attempt_number attempt.attempt_number)
            (list_attempts_for_task task.id w.db)
          ≡ true)
unfolding claim_task
claim_task-effect c w w' attempt e =
    let ((execution, task), v, prepared, committed) =
      >>=-eq-ok (prepare_claim c) (commit_claim c) w w' e in
    let p = prepare_claim-IsPrepared c w v execution task prepared in
    let r : IsClaimed c task w w' attempt =
      subst (λ (x : World). IsClaimed c task x w' attempt) p.same
        (commit_claim-IsClaimed c execution task v w' attempt committed) in
    (
      task,
      p.allowed,
      p.found,
      p.ready,
      p.of_execution,
      r.tasks,
      r.attempts,
      r.of_task,
      r.runs,
      r.owner,
      r.lease,
      rw (r.number) (max_attempt_number-bounds (list_attempts_for_task task.id w.db)),
    )
