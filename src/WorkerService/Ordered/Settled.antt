-- ===== src/WorkerService/Ordered/Settled.antt =====
-- That the transitions of a running task in src/zero/app/worker_service.py keep the order of work.
use zero_agent_dev_telegram.Common.{
  ◌≡◌, refl, ap, arith, ℕ, true, false, Option, some, List, String, ◌∙◌,
}
use zero_agent_dev_telegram.Domain.Audit.{Operation, Target, AuditResult}
use zero_agent_dev_telegram.Domain.Execution.{TaskState, AttemptState, Evidence, Execution, Task}
use zero_agent_dev_telegram.Database.{Db, World}
use zero_agent_dev_telegram.Exec.{Exec, ok, ◌>>◌, >>=-eq-ok}
use zero_agent_dev_telegram.Repository.Audit.{record_audit}
use zero_agent_dev_telegram.Repository.Execution.{update_task_state}
use zero_agent_dev_telegram.Repository.Attempts.{Fence, update_attempt_state}
use zero_agent_dev_telegram.WorkerService.Readiness.{recompute_readiness}
use zero_agent_dev_telegram.WorkerService.Completion.{maybe_complete_execution}
use zero_agent_dev_telegram.WorkerService.Snapshots.{snapshot}
use zero_agent_dev_telegram.WorkerService.Transitions.{TaskCall, after_transition, settle_task}
use zero_agent_dev_telegram.WorkerService.Ordered.{
  state_at, is_done, is_engaged, has_task_keys, IsOrdered, IsGrowth,
}
use zero_agent_dev_telegram.WorkerService.Ordered.Progress.{
  IsProgress-IsGrowth, IsGrowth-trans, IsGrowth-IsOrdered, same-IsGrowth,
}
use zero_agent_dev_telegram.WorkerService.Ordered.Rows.{
  update_task_state-IsGrowth, update_task_state-IsProgress, update_task_state-keys,
}
use zero_agent_dev_telegram.WorkerService.Ordered.Kept.{recompute_readiness-IsProgress}
use zero_agent_dev_telegram.WorkerService.Ordered.Others.{
  IsSameGraph, state_at-same, KeepsGraph, bind-KeepsGraph, update_attempt_state-KeepsGraph,
  record_audit-KeepsGraph, snapshot-KeepsGraph, maybe_complete_execution-KeepsGraph,
}

pub same_graph-IsGrowth : (a b : Db) → IsSameGraph a b → IsGrowth a b
same_graph-IsGrowth a b s = same-IsGrowth a b s.tasks s.edges

module _ (n : ℕ) (c : TaskCall) (execution : Execution) (task : Task) (reason : String)
    (operation : Operation) (result : AuditResult) where
  -- What follows the recomputation.
  abbrev log_transition : Exec Unit
  log_transition = do
    snapshot c.execution_id reason
    record_audit execution.project_id c.actor_id c.source operation (Target.task task.id) result
        (some c.execution_id)

  abbrev conclude : Exec Unit
  conclude = do maybe_complete_execution n c.execution_id; log_transition

  conclude-KeepsGraph : KeepsGraph conclude
  conclude-KeepsGraph =
      bind-KeepsGraph (maybe_complete_execution n c.execution_id) (λ _. log_transition)
        (maybe_complete_execution-KeepsGraph n c.execution_id)
        (λ _.
          bind-KeepsGraph (snapshot c.execution_id reason)
            (λ _.
              record_audit execution.project_id c.actor_id c.source operation (Target.task task.id)
                result (some c.execution_id))
            (snapshot-KeepsGraph c.execution_id reason)
            (λ _.
              record_audit-KeepsGraph execution.project_id c.actor_id c.source operation
                (Target.task task.id) result (some c.execution_id)))

  after_transition-IsGrowth :
      (w w' : World)
      → has_task_keys w.db.tasks ≡ true
      → after_transition n c execution task reason operation result w ≡ (ok tt, w')
      → IsGrowth w.db w'.db
  unfolding after_transition
  after_transition-IsGrowth w w' keys e =
      let (_, v, e1, e2) = >>=-eq-ok (recompute_readiness c.execution_id) (λ _. conclude) w w' e in
      IsGrowth-trans w.db v.db w'.db
        (IsProgress-IsGrowth w.db v.db (recompute_readiness-IsProgress c.execution_id w v keys e1))
        (same_graph-IsGrowth v.db w'.db (conclude-KeepsGraph v w' tt e2))

  module _ (attempt_state : AttemptState) (message : Option String) (fence : Option Fence)
      (task_state : TaskState) (blocker : Option String) (evidence : Option (List Evidence)) where
    abbrev write_task : Exec Unit
    write_task = do
      update_task_state task.id task_state blocker evidence
      after_transition n c execution task reason operation result

    write_task-IsGrowth :
        (w w' : World)
        → has_task_keys w.db.tasks ≡ true
        → is_engaged (state_at task.id w.db) ≡ true
        → is_done (state_at task.id w.db) ≡ false
        → write_task w ≡ (ok tt, w')
        → IsGrowth w.db w'.db
    write_task-IsGrowth w w' keys engaged not_done e =
        let (_, v, e1, e2) =
          >>=-eq-ok (update_task_state task.id task_state blocker evidence)
            (λ _. after_transition n c execution task reason operation result) w w' e in
        IsGrowth-trans w.db v.db w'.db
          (update_task_state-IsGrowth task.id task_state blocker evidence w v e1 engaged not_done)
          (after_transition-IsGrowth v w'
            (update_task_state-keys task.id task_state blocker evidence w v e1 keys) e2)

    pub settle_task-IsGrowth :
        (w w' : World)
        → has_task_keys w.db.tasks ≡ true
        → state_at task.id w.db ≡ some TaskState.running
        → settle_task n c execution task attempt_state message fence task_state blocker evidence
            reason operation result w
          ≡ (ok tt, w')
        → IsGrowth w.db w'.db
    unfolding settle_task state_at
    settle_task-IsGrowth w w' keys runs e =
        let (_, v, e1, e2) =
          >>=-eq-ok (update_attempt_state c.attempt_id attempt_state message fence)
            (λ _. write_task) w w' e in
        let same : IsSameGraph w.db v.db =
          update_attempt_state-KeepsGraph c.attempt_id attempt_state message fence w v tt e1 in
        let runs' : state_at task.id v.db ≡ some TaskState.running =
          state_at-same w.db v.db same task.id ∙ runs in
        IsGrowth-trans w.db v.db w'.db (same_graph-IsGrowth w.db v.db same)
          (write_task-IsGrowth v w' (rw (same.tasks) keys) (rw runs' refl) (rw runs' refl) e2)

    -- A task that is not complete may be cancelled in whatever state it is.
    cancel_task_row-IsGrowth :
        (w w' : World)
        → task_state ≡ TaskState.cancelled
        → has_task_keys w.db.tasks ≡ true
        → is_done (state_at task.id w.db) ≡ false
        → write_task w ≡ (ok tt, w')
        → IsGrowth w.db w'.db
    cancel_task_row-IsGrowth w w' cancelled keys not_done e =
        let (_, v, e1, e2) =
          >>=-eq-ok (update_task_state task.id task_state blocker evidence)
            (λ _. after_transition n c execution task reason operation result) w w' e in
        IsGrowth-trans w.db v.db w'.db
          (IsProgress-IsGrowth w.db v.db (
            update_task_state-IsProgress task.id task_state blocker evidence w v e1
              (rw cancelled refl) not_done (λ h. absurd (ground (arith, cancelled)))))
          (after_transition-IsGrowth v w'
            (update_task_state-keys task.id task_state blocker evidence w v e1 keys) e2)

    pub settle_cancelled-IsGrowth :
        (w w' : World)
        → task_state ≡ TaskState.cancelled
        → has_task_keys w.db.tasks ≡ true
        → is_done (state_at task.id w.db) ≡ false
        → settle_task n c execution task attempt_state message fence task_state blocker evidence
            reason operation result w
          ≡ (ok tt, w')
        → IsGrowth w.db w'.db
    unfolding settle_task state_at
    settle_cancelled-IsGrowth w w' cancelled keys not_done e =
        let (_, v, e1, e2) =
          >>=-eq-ok (update_attempt_state c.attempt_id attempt_state message fence)
            (λ _. write_task) w w' e in
        let same : IsSameGraph w.db v.db =
          update_attempt_state-KeepsGraph c.attempt_id attempt_state message fence w v tt e1 in
        IsGrowth-trans w.db v.db w'.db (same_graph-IsGrowth w.db v.db same) (
          cancel_task_row-IsGrowth v w' cancelled (rw (same.tasks) keys)
            (ap is_done (state_at-same w.db v.db same task.id) ∙ not_done) e2)

    -- Under the primary key of the tasks' table, a transition of a task that runs in its row, to
    -- whatever state and with all that the recomputation of the other tasks changes, keeps the order
    -- of work if it returns: no task is let through whose dependencies are not all complete.
    pub settle_task-IsOrdered :
        (w w' : World)
        → has_task_keys w.db.tasks ≡ true
        → state_at task.id w.db ≡ some TaskState.running
        → IsOrdered w.db
        → settle_task n c execution task attempt_state message fence task_state blocker evidence
            reason operation result w
          ≡ (ok tt, w')
        → IsOrdered w'.db
    settle_task-IsOrdered w w' keys runs ordered e =
        IsGrowth-IsOrdered w.db w'.db (settle_task-IsGrowth w w' keys runs e) ordered
