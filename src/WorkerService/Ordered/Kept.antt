-- ===== src/WorkerService/Ordered/Kept.antt =====
-- `_recompute_readiness` of src/zero/app/worker_service.py on a whole graph.
use zero_agent_dev_telegram.Common.{
  ◌≡◌, refl, arith, Bool, true, false, not, ◌&&◌, Option, none, some, List, [], ◌∷◌, ◌==◌, any, all,
  first, select, ==-refl, if◌then◌else◌,
}
use zero_agent_dev_telegram.Domain.Execution.{TaskState, task_state_eq, ExecutionId, TaskId, Task}
use zero_agent_dev_telegram.Database.{Db, World}
use zero_agent_dev_telegram.Exec.{ok}
use zero_agent_dev_telegram.Repository.Execution.{find_task, list_tasks_for_execution}
use zero_agent_dev_telegram.Repository.Plan.{in_scope}
use zero_agent_dev_telegram.WorkerService.Readiness.{is_completed, recompute_readiness}
use zero_agent_dev_telegram.WorkerService.Ordered.{
  state_of_row, state_at, is_done, has_task_keys, IsProgress,
}
-- The states that the loop over the edges reads are those of the rows.
use zero_agent_dev_telegram.WorkerService.Ordered.Progress.{all-imp}
use zero_agent_dev_telegram.WorkerService.Ordered.Recomputed.{agrees_with, for_each-IsProgress}

pub all-select :
    {A : Type 0} (p q : A → Bool) (xs : List A) → all p xs ≡ true → all p (select q xs) ≡ true
unfolding select
all-select p q [] h = refl
all-select p q (x ∷ xs) h = ground (arith, all-select p q xs)

abbrev row_of : TaskId → List Task → Option Task
row_of k = first (λ u. u.id == k && in_scope none u.project_id)

abbrev pub same_state : Option TaskState → Task → Bool
same_state none t = false
same_state (some s) t = task_state_eq s t.state

abbrev agrees_row : Option Task → Task → Bool
agrees_row o t = same_state (state_of_row o) t

abbrev agrees_in : List Task → Task → Bool
agrees_in xs t = agrees_row (row_of t.id xs) t

row_of-skip :
    (x y : Task) (xs : List Task) → (y.id == x.id) ≡ false → row_of y.id (x ∷ xs) ≡ row_of y.id xs
unfolding first
row_of-skip x y xs other = let other' : (x.id == y.id) ≡ false = ground arith in rw other' refl

row_of-head : (x : Task) (xs : List Task) → row_of x.id (x ∷ xs) ≡ some x
unfolding first
row_of-head x xs = rw (==-refl x.id) refl

agrees_row_self : (t : Task) → agrees_row (some t) t ≡ true
agrees_row_self t = ground arith

agrees_in-cons :
    (x : Task) (xs ys : List Task)
    → any (λ u. u.id == x.id) ys ≡ false
    → all (agrees_in xs) ys ≡ true
    → all (agrees_in (x ∷ xs)) ys ≡ true
agrees_in-cons x xs [] other h = refl
agrees_in-cons x xs (y ∷ ys) other h =
    rw (row_of-skip x y xs (ground arith))
      (ground (arith, h, agrees_in-cons x xs ys (ground arith)))

-- Under the primary key each row is the one that its id finds.
agrees_in-keys : (xs : List Task) → has_task_keys xs ≡ true → all (agrees_in xs) xs ≡ true
unfolding has_task_keys
agrees_in-keys [] h = refl
agrees_in-keys (x ∷ xs) h =
    rw (row_of-head x xs, agrees_row_self x)
      (agrees_in-cons x xs xs (ground arith) (agrees_in-keys xs (ground arith)))

-- The same of the whole table: the state that an id finds is the state of the row.
pub same_state-keys :
    (db : Db)
    → has_task_keys db.tasks ≡ true
    → all (λ t. same_state (state_at t.id db) t) db.tasks ≡ true
unfolding state_at find_task
same_state-keys db h = agrees_in-keys db.tasks h

pub done_of_same :
    (o : Option TaskState) (t : Task)
    → same_state o t ≡ true
    → (if is_done o then is_completed t.state else not (is_completed t.state)) ≡ true
done_of_same none t h = absurd (cc)
done_of_same (some s) t h = ground arith

agrees_with-keys : (db : Db) → has_task_keys db.tasks ≡ true → all (agrees_with db) db.tasks ≡ true
agrees_with-keys db h =
    all-imp (λ t. same_state (state_at t.id db) t) (agrees_with db) db.tasks
      (λ t. done_of_same (state_at t.id db) t) (same_state-keys db h)

-- Under the primary key of the tasks' table, a recomputation that returns keeps the edges and what is
-- complete, and lets a task through only where all it depends on is complete.
pub recompute_readiness-IsProgress :
    (execution_id : ExecutionId) (w w' : World)
    → has_task_keys w.db.tasks ≡ true
    → recompute_readiness execution_id w ≡ (ok tt, w')
    → IsProgress w.db w'.db
unfolding recompute_readiness list_tasks_for_execution
recompute_readiness-IsProgress execution_id w w' keys e =
    for_each-IsProgress (select (λ t. t.execution_id == execution_id) w.db.tasks) w w'
      (all-select (agrees_with w.db) (λ t. t.execution_id == execution_id) w.db.tasks
        (agrees_with-keys w.db keys))
      e
