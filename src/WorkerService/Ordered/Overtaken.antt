-- ===== src/WorkerService/Ordered/Overtaken.antt =====
-- `requeue_failed_task` of src/zero/app/worker_service.py reads the task before its transaction, which
-- does not look at it again.
use zero_agent_dev_telegram.Common.{
  ◌≡◌, refl, sym, ap, subst, arith, Bool, true, false, Option, some, List, [], ◌∷◌, ◌==◌, any, all,
  ==-refl, ==→eq, Bool-cases, inl, inr, none, ◌∙◌, select,
}
use zero_agent_dev_telegram.Domain.Execution.{TaskId, TaskState, Execution, Task, TaskDependency}
use zero_agent_dev_telegram.Database.{Db, World}
use zero_agent_dev_telegram.Exec.{ok, ◌>>◌, >>=-eq-ok, transaction-eq-ok}
use zero_agent_dev_telegram.Repository.Execution.{update_task_state, list_dependencies_for_task}
use zero_agent_dev_telegram.WorkerService.Operators.{Request, open_request, commit_requeue}
use zero_agent_dev_telegram.WorkerService.Ordered.{
  state_at, is_done, is_engaged, is_met, dependencies_completed, IsOrdered,
}
use zero_agent_dev_telegram.WorkerService.Ordered.Rows.{
  state_after, update_task_state-tasks, update_task_state-state_at,
}
use zero_agent_dev_telegram.WorkerService.Ordered.Others.{state_at-same}
use zero_agent_dev_telegram.WorkerService.Ordered.Started.{log_requeue, log_requeue-KeepsGraph}
use zero_agent_dev_telegram.WorkerService.Ordered.Endings.{open_request-IsFailedRead}

-- A task that depends on another.
abbrev pub depends_on : TaskId → TaskId → Db → Bool
depends_on k task_id db =
    any (λ d. d.depends_on_task_id == task_id) (list_dependencies_for_task k db)

-- What the transaction does to states and edges, whatever the row holds.
record IsRequeued (task_id : TaskId) (v v' : World) : Type 0 where
  states : (k : TaskId) → state_at k v'.db ≡ state_after k task_id TaskState.ready (state_at k v.db)
  edges : v'.db.task_dependencies ≡ v.db.task_dependencies

commit_requeue-IsRequeued :
    (r : Request) (execution : Execution) (task : Task) (v v' : World)
    → commit_requeue r (execution, task) v ≡ (ok tt, v')
    → IsRequeued task.id v v'
unfolding commit_requeue
commit_requeue-IsRequeued r execution task v v' e =
    let write = update_task_state task.id TaskState.ready none none in
    let (_, u, e1, e2) =
      >>=-eq-ok write (λ _. log_requeue r execution task) v v'
        (transaction-eq-ok (write >> log_requeue r execution task) v v' e) in
    let same = log_requeue-KeepsGraph r execution task u v' tt e2 in
    record {
      states = λ k.
          state_at-same u.db v'.db same k
          ∙ update_task_state-state_at task.id TaskState.ready none none v u e1 k;
      edges =
          same.edges
          ∙ ap (λ (x : World). x.db.task_dependencies)
              (update_task_state-tasks task.id TaskState.ready none none v u e1);
    }

unmet :
    (db : Db) (task_id : TaskId) (ds : List TaskDependency)
    → is_done (state_at task_id db) ≡ false
    → any (λ d. d.depends_on_task_id == task_id) ds ≡ true
    → all (is_met db) ds ≡ false
unmet db task_id [] h e = absurd (cc)
unmet db task_id (d ∷ ds) h e = elim (Bool-cases (d.depends_on_task_id == task_id)) [
  | inl same ↦ rw (==→eq d.depends_on_task_id task_id same, h) refl
  | inr other ↦ ground (arith, unmet db task_id ds h)
]

still_engaged :
    (k i : TaskId) (o : Option TaskState)
    → is_engaged o ≡ true
    → is_engaged (state_after k i TaskState.ready o) ≡ true
still_engaged k i none h = absurd (cc)
still_engaged k i (some x) h = ground arith

not-IsOrdered :
    (db : Db) (k task_id : TaskId)
    → is_engaged (state_at k db) ≡ true
    → is_done (state_at task_id db) ≡ false
    → depends_on k task_id db ≡ true
    → ¬ IsOrdered db
unfolding IsOrdered dependencies_completed
not-IsOrdered db k task_id engaged not_done edge ordered =
    let unmet_edge = unmet db task_id (list_dependencies_for_task k db) not_done edge in
    let closed = ordered k engaged in absurd (ground arith)

-- The checks of a requeue have passed on a failed task. By the time its transaction opens, the task was
-- run again and is complete, and a task that depends on it was let through. If the transaction returns,
-- the completed task is ready once more, and the order of work is broken.
pub requeue_over_completion :
    (r : Request) (execution : Execution) (task : Task) (w w1 v v' : World) (k : TaskId)
    → open_request TaskState.failed r w ≡ (ok (execution, task), w1)
    → state_at task.id v.db ≡ some TaskState.completed
    → depends_on k task.id v.db ≡ true
    → is_engaged (state_at k v.db) ≡ true
    → commit_requeue r (execution, task) v ≡ (ok tt, v')
    → (task.state ≡ TaskState.failed)
      × (state_at task.id v'.db ≡ some TaskState.ready)
      × ¬ IsOrdered v'.db
unfolding list_dependencies_for_task
requeue_over_completion r execution task w w1 v v' k prepared done edge engaged committed =
    let q = commit_requeue-IsRequeued r execution task v v' committed in
    let ready : state_at task.id v'.db ≡ some TaskState.ready =
      q.states task.id ∙ rw (done, ==-refl task.id) refl in
    (
      (open_request-IsFailedRead r w w1 execution task prepared).failed,
      ready,
      not-IsOrdered v'.db k task.id
          (ap is_engaged (q.states k) ∙ still_engaged k task.id (state_at k v.db) engaged)
          (rw ready refl)
          (subst
            (λ (ds : List TaskDependency).
              any (λ d. d.depends_on_task_id == task.id) (select (λ d. d.task_id == k) ds) ≡ true)
            (sym q.edges) edge),
    )
