-- ===== src/Scheduler/Budget.antt =====
-- What the retry pass of src/zero/app/scheduler_service.py does to one task, and within which budget.
use zero_agent_dev_telegram.Common.{
  ◌≡◌, refl, ap, arith, ℕ, ◌+◌, ◌/◌, ◌<◌, Bool, true, false, ◌⊎◌, inl, inr, none, some, String,
  List, [], ◌∷◌, ◌==◌, ◌&&◌, any, text_eq, eq_iff, ltb, length, update, if◌then◌else◌, Bool-cases,
  subst, sym, ltb→lt,
}
use zero_agent_dev_telegram.Domain.Authorization.{Permission}
use zero_agent_dev_telegram.Domain.Execution.{
  ExecutionId, TaskId, TaskState, Task, TaskAttempt, task_state_eq,
}
use zero_agent_dev_telegram.Database.{World}
use zero_agent_dev_telegram.Exec.{Exec, Result, ok, ◌>>=◌, ◌>>◌, >>=-eq-ok, read_clock, pure}
use zero_agent_dev_telegram.Authorization.Decision.{require_permission-refines-policy}
use zero_agent_dev_telegram.Repository.Attempts.{list_attempts_for_task}
use zero_agent_dev_telegram.Repository.Execution.{task_with, claimable, get_task}
use zero_agent_dev_telegram.WorkerService.Operators.{requeue_failed_task, schedule_task_retry}
use zero_agent_dev_telegram.Scheduler.Requeues.{
  with_stamp, requeue_failed_task-IsTaskStep, schedule_task_retry-IsTaskStep,
}
use zero_agent_dev_telegram.Scheduler.Retries.{
  Settings, Caller, list_attempts, requeue_and_stamp, retry_task, retry_due, is_due, delay_of,
  draw_delay, request_of, retry_delay_elapsed,
}

-- The rows after a retry: ready in the first write, stamped in the second.
abbrev pub retried : ℕ → TaskId → String → List Task → List Task
retried now id stamp rows =
    update (λ t. t.id == id) (with_stamp (some stamp))
      (update (λ t. t.id == id) (task_with now TaskState.ready none none) rows)

abbrev pub stamp_at : Settings → ℕ → List TaskAttempt → World → String
stamp_at s now attempts v = s.format_utc (now / 1_000_000 + delay_of s attempts v)

abbrev stamp_next : Settings → Caller → ExecutionId → Task → List TaskAttempt → Exec Unit
stamp_next s c id task attempts = do
  delay_seconds ← draw_delay s attempts
  now ← read_clock
  schedule_task_retry (request_of c id task.id) (s.format_utc (now / 1_000_000 + delay_seconds))
  pure tt

requeue_and_stamp-tasks :
    (s : Settings) (c : Caller) (id : ExecutionId) (task : Task) (attempts : List TaskAttempt)
    (w w' : World)
    → requeue_and_stamp s c id task attempts w ≡ (ok tt, w')
    → (v : World) × (w'.db.tasks ≡ retried w.now task.id (stamp_at s w.now attempts v) w.db.tasks)
unfolding requeue_and_stamp
requeue_and_stamp-tasks s c id task attempts w w' e =
    let (ready, v, e1, e2) =
      >>=-eq-ok (requeue_failed_task (request_of c id task.id))
        (λ _. stamp_next s c id task attempts) w w' e in
    let q = requeue_failed_task-IsTaskStep (request_of c id task.id) w v ready e1 in
    let stamp = stamp_at s v.now attempts v in
    let (last, u, e3, e4) =
      >>=-eq-ok (schedule_task_retry (request_of c id task.id) stamp) (λ _. pure tt) v w' e2 in
    let t = schedule_task_retry-IsTaskStep (request_of c id task.id) stamp v u last e3 in
    (v, ground (arith, t.tasks, q.tasks, q.now, e4))

list_attempts-found :
    (c : Caller) (id : TaskId) (w w' : World) (attempts : List TaskAttempt)
    → list_attempts c id w ≡ (ok attempts, w')
    → (w' ≡ w) × (attempts ≡ list_attempts_for_task id w.db)
unfolding list_attempts get_task
list_attempts-found c id w w' attempts e = ground (
  arith,
  require_permission-refines-policy c.actor_id c.project_id Permission.execution_view_diffs c.source
      w,
)

is_failed-eq : (s : TaskState) → task_state_eq s TaskState.failed ≡ true → s ≡ TaskState.failed
is_failed-eq TaskState.failed h = refl
is_failed-eq s h = absurd (cc)

-- What became of a task for which a retry was due.
record IsRetried (s : Settings) (task : Task) (w w' : World) : Type 0 where
  budget : length (list_attempts_for_task task.id w.db) < s.task_max_attempts
  drawn : World
  tasks :
      w'.db.tasks
      ≡ retried w.now task.id
          (stamp_at s w.now (list_attempts_for_task task.id w.db) drawn)
          w.db.tasks

spend : Settings → Caller → ExecutionId → Task → List TaskAttempt → Exec Unit
spend s c id task attempts =
    if ltb (length attempts) s.task_max_attempts
    then requeue_and_stamp s c id task attempts
    else pure tt

spend-IsRetried :
    (s : Settings) (c : Caller) (id : ExecutionId) (task : Task) (w w' : World)
    → spend s c id task (list_attempts_for_task task.id w.db) w ≡ (ok tt, w')
    → (w' ≡ w) ⊎ IsRetried s task w w'
unfolding spend
spend-IsRetried s c id task w w' e =
    spent (ltb (length (list_attempts_for_task task.id w.db)) s.task_max_attempts) refl e
  where
    spent :
        (b : Bool)
        → ltb (length (list_attempts_for_task task.id w.db)) s.task_max_attempts ≡ b
        → (if b
              then requeue_and_stamp s c id task (list_attempts_for_task task.id w.db)
              else pure tt)
            w
          ≡ (ok tt, w')
        → (w' ≡ w) ⊎ IsRetried s task w w'
    spent true left h =
        let (drawn, tasks) =
          requeue_and_stamp-tasks s c id task (list_attempts_for_task task.id w.db) w w' h in
        inr (record {
          budget = ltb→lt (length (list_attempts_for_task task.id w.db)) s.task_max_attempts left;
          drawn = drawn;
          tasks = tasks;
        })
    spent false over h = inl (sym (ap (λ (x : Result {0} Unit × World). x.1) h))

retry_due-IsRetried :
    (s : Settings) (c : Caller) (id : ExecutionId) (task : Task) (w w' : World)
    → retry_due s c id task w ≡ (ok tt, w')
    → (w' ≡ w) ⊎ IsRetried s task w w'
unfolding retry_due spend
retry_due-IsRetried s c id task w w' e =
    let (attempts, v, e1, e2) = >>=-eq-ok (list_attempts c task.id) (spend s c id task) w w' e in
    let (same, rows) = list_attempts-found c task.id w v attempts e1 in
    spend-IsRetried s c id task w w' (
      subst (λ (x : List TaskAttempt × World). spend s c id task x.0 x.1 ≡ (ok tt, w'))
        (λ i. (rows i, same i)) e2)

-- Within the budget: a pass over a task that returns either left the world as it was, or the task had
-- failed, its stamp was past, and it had fewer attempts than the budget; then its rows are ready, with
-- a stamp that lies as far ahead of the clock as the delay for the next attempt says.
pub retry_task-budget :
    (s : Settings) (c : Caller) (id : ExecutionId) (task : Task) (w w' : World)
    → retry_task s c id task w ≡ (ok tt, w')
    → (w' ≡ w)
      ⊎ ((task.state ≡ TaskState.failed)
          × (retry_delay_elapsed s w.now task.next_retry_at ≡ true)
          × (length (list_attempts_for_task task.id w.db) < s.task_max_attempts)
          × (v : World) × (w'.db.tasks
              ≡ retried w.now task.id
                  (stamp_at s w.now (list_attempts_for_task task.id w.db) v)
                  w.db.tasks))
unfolding retry_task
retry_task-budget s c id task w w' e = elim (Bool-cases (is_due s task w.now)) [
  | inl due ↦ elim (retry_due-IsRetried s c id task w w' (ground (arith, due, e))) [
    | inl same ↦ inl same
    | inr r ↦ inr (is_failed-eq task.state (ground arith), ground arith, r.budget, r.drawn, r.tasks)
  ]
  | inr rests ↦ inl (ground (arith, rests, e))
]

abbrev pub has_stamp : String → Task → Bool
has_stamp stamp t = elim t.next_retry_at [ none ↦ false | some s ↦ text_eq s stamp ]

retried-claimable :
    (now : ℕ) (id : TaskId) (execution project : ℕ) (stamp : String) (rows : List Task)
    → any (λ t. (t.id == id && t.execution_id == execution) && t.project_id == project) rows ≡ true
    → any (λ t. claimable execution id project t && has_stamp stamp t) (retried now id stamp rows)
      ≡ true
unfolding update
retried-claimable now id execution project stamp [] h = absurd (cc)
retried-claimable now id execution project stamp (t ∷ rows) h =
    ground (arith, eq_iff stamp stamp, retried-claimable now id execution project stamp rows)

-- The stamp does not hold the retry back: once a task of the execution has been made ready and
-- stamped, it can be claimed at once, although its stamp lies ahead of the clock by the delay.
pub requeue_and_stamp-claimable :
    (s : Settings) (c : Caller) (id : ExecutionId) (task : Task) (attempts : List TaskAttempt)
    (w w' : World)
    → requeue_and_stamp s c id task attempts w ≡ (ok tt, w')
    → any
        (λ t. (t.id == task.id && t.execution_id == id) && t.project_id == c.project_id)
        w.db.tasks
      ≡ true
    → (v : World) × (any
          (λ t. claimable id task.id c.project_id t && has_stamp (stamp_at s w.now attempts v) t)
          w'.db.tasks
        ≡ true)
requeue_and_stamp-claimable s c id task attempts w w' e here =
    let (v, tasks) = requeue_and_stamp-tasks s c id task attempts w w' e in
    (
      v,
      rw tasks (
          retried-claimable w.now task.id id c.project_id (stamp_at s w.now attempts v) w.db.tasks
            here),
    )
