-- ===== src/WorkerService/Cancelling.antt =====
-- What `cancel_execution` of src/zero/app/worker_service.py leaves of a task graph.
use zero_agent_dev_telegram.Common.{
  ◌≡◌, refl, sym, ◌||◌, arith, Bool, true, not, Option, none, some, List, [], ◌∷◌, ◌==◌, subst, all,
}
use zero_agent_dev_telegram.Domain.Audit.{Operation, Target, AuditResult}
use zero_agent_dev_telegram.Domain.Execution.{
  TaskId, ExecutionState, TaskState, Execution, Task, is_terminal_task_state, task_state_eq,
}
use zero_agent_dev_telegram.Database.{Db, World}
use zero_agent_dev_telegram.Exec.{Exec, ok, ◌>>◌, >>=-eq-ok, transaction-eq-ok}
use zero_agent_dev_telegram.Repository.Audit.{record_audit}
use zero_agent_dev_telegram.Repository.Execution.{update_execution_state, list_tasks_for_execution}
use zero_agent_dev_telegram.WorkerService.Loops.{for_each}
use zero_agent_dev_telegram.WorkerService.Snapshots.{snapshot}
use zero_agent_dev_telegram.WorkerService.Operators.{
  Request, cancel_in_graph, commit_execution_cancellation,
}
use zero_agent_dev_telegram.WorkerService.Ordered.{state_at, has_task_keys}
use zero_agent_dev_telegram.WorkerService.Ordered.Progress.{all-imp}
use zero_agent_dev_telegram.WorkerService.Ordered.Kept.{same_state, same_state-keys, all-select}
use zero_agent_dev_telegram.WorkerService.Ordered.Others.{
  state_at-same, KeepsGraph, bind-KeepsGraph, record_audit-KeepsGraph, snapshot-KeepsGraph,
  update_execution_state-KeepsGraph,
}
use zero_agent_dev_telegram.WorkerService.CancelRounds.{is_finished, round_keeps, round_ends}

-- A row that says that its task is over is right.
abbrev is_honest : Db → Task → Bool
is_honest db t = not (is_terminal_task_state t.state) || is_finished (state_at t.id db)

honest_of_same :
    (o : Option TaskState) (t : Task)
    → same_state o t ≡ true
    → (not (is_terminal_task_state t.state) || is_finished o) ≡ true
honest_of_same none t h = absurd (cc)
honest_of_same (some s) t h = same_index s t.state h
  where
    same_index :
        (s s' : TaskState)
        → task_state_eq s s' ≡ true
        → (not (is_terminal_task_state s') || is_terminal_task_state s) ≡ true
    same_index s TaskState.completed h = ground arith
    same_index s TaskState.cancelled h = ground arith
    same_index s s' h = refl

honest_after :
    (a b : Bool) (c : Bool) → (c ≡ true → b ≡ true) → (not a || c) ≡ true → (not a || b) ≡ true
honest_after a b c imp h = ground arith

for_each-keeps :
    (ts : List Task) (w w' : World)
    → for_each cancel_in_graph ts w ≡ (ok tt, w')
    → (k : TaskId) → is_finished (state_at k w.db) ≡ true
    → is_finished (state_at k w'.db) ≡ true
unfolding for_each
for_each-keeps [] w w' e k h =
    let same : w' ≡ w = ground arith in
    subst (λ (x : World). is_finished (state_at k x.db) ≡ true) (sym same) h
for_each-keeps (t ∷ ts) w w' e k h =
    let (_, v, e1, e2) = >>=-eq-ok (cancel_in_graph t) (λ _. for_each cancel_in_graph ts) w w' e in
    for_each-keeps ts v w' e2 k (round_keeps t w v e1 k h)

for_each-ends :
    (ts : List Task) (w w' : World)
    → for_each cancel_in_graph ts w ≡ (ok tt, w')
    → all (is_honest w.db) ts ≡ true
    → all (λ t. is_finished (state_at t.id w'.db)) ts ≡ true
unfolding for_each
for_each-ends [] w w' e h = refl
for_each-ends (t ∷ ts) w w' e h =
    let (_, v, e1, e2) = >>=-eq-ok (cancel_in_graph t) (λ _. for_each cancel_in_graph ts) w w' e in
    let ended : is_finished (state_at t.id w'.db) ≡ true =
      for_each-keeps ts v w' e2 t.id (round_ends t w v e1 (ground arith)) in
    let honest : all (is_honest v.db) ts ≡ true =
      all-imp (is_honest w.db) (is_honest v.db) ts
        (λ u.
          honest_after (is_terminal_task_state u.state) (is_finished (state_at u.id v.db))
            (is_finished (state_at u.id w.db)) (round_keeps t w v e1 u.id))
        (ground arith) in
    rw (ended, for_each-ends ts v w' e2 honest) refl

-- What follows the loop.
abbrev log_cancellation : Request → Execution → Exec Unit
log_cancellation r execution = do
  snapshot r.execution_id "after_cancel"
  record_audit execution.project_id r.actor_id r.source Operation.execution_cancel
      (Target.execution execution.id) AuditResult.success (some r.execution_id)

abbrev close_execution : Request → Execution → Exec Unit
close_execution r execution = do
  update_execution_state r.execution_id ExecutionState.cancelled none
  log_cancellation r execution

close_execution-KeepsGraph :
    (r : Request) (execution : Execution) → KeepsGraph (close_execution r execution)
close_execution-KeepsGraph r execution =
    bind-KeepsGraph (update_execution_state r.execution_id ExecutionState.cancelled none)
      (λ _. log_cancellation r execution)
      (update_execution_state-KeepsGraph r.execution_id ExecutionState.cancelled none)
      (λ _.
        bind-KeepsGraph (snapshot r.execution_id "after_cancel")
          (λ _.
            record_audit execution.project_id r.actor_id r.source Operation.execution_cancel
              (Target.execution execution.id) AuditResult.success (some r.execution_id))
          (snapshot-KeepsGraph r.execution_id "after_cancel")
          (λ _.
            record_audit-KeepsGraph execution.project_id r.actor_id r.source
              Operation.execution_cancel (Target.execution execution.id) AuditResult.success
              (some r.execution_id)))

-- A cancellation of an execution that commits leaves each of its tasks completed or cancelled, under
-- the primary key of the tasks' table.
pub commit_execution_cancellation-ends :
    (r : Request) (execution : Execution) (w w' : World)
    → has_task_keys w.db.tasks ≡ true
    → commit_execution_cancellation r execution w ≡ (ok tt, w')
    → all (λ t. is_finished (state_at t.id w'.db)) (list_tasks_for_execution r.execution_id w.db)
      ≡ true
unfolding commit_execution_cancellation list_tasks_for_execution
commit_execution_cancellation-ends r execution w w' keys e =
    let tasks : List Task = list_tasks_for_execution r.execution_id w.db in
    let (_, v, e1, e2) =
      >>=-eq-ok (for_each cancel_in_graph tasks) (λ _. close_execution r execution) w w'
        (transaction-eq-ok (for_each cancel_in_graph tasks >> close_execution r execution) w w'
          e) in
    let same = close_execution-KeepsGraph r execution v w' tt e2 in
    let honest : all (is_honest w.db) tasks ≡ true =
      all-imp (λ t. same_state (state_at t.id w.db) t) (is_honest w.db) tasks
        (λ t. honest_of_same (state_at t.id w.db) t)
        (all-select (λ t. same_state (state_at t.id w.db) t) (λ t. t.execution_id == r.execution_id)
          w.db.tasks (same_state-keys w.db keys)) in
    all-imp (λ t. is_finished (state_at t.id v.db)) (λ t. is_finished (state_at t.id w'.db)) tasks
      (λ t h. rw (state_at-same v.db w'.db same t.id) h) (for_each-ends tasks w v e1 honest)
