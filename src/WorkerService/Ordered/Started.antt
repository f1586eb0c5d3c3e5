-- ===== src/WorkerService/Ordered/Started.antt =====
-- That claims and requeues of src/zero/app/worker_service.py keep the order of work.
use zero_agent_dev_telegram.Common.{
  ◌≡◌, refl, sym, arith, true, ◌&&◌, Option, none, some, ◌∙◌, changed, ap, first-update, ◌==◌,
}
use zero_agent_dev_telegram.Domain.Audit.{Operation, Target, AuditResult}
use zero_agent_dev_telegram.Domain.Execution.{TaskId, TaskState, Execution, Task, TaskAttempt}
use zero_agent_dev_telegram.Database.{World}
use zero_agent_dev_telegram.Exec.{Exec, ok, ◌>>◌, >>=-eq-ok, transaction-eq-ok}
use zero_agent_dev_telegram.Repository.Audit.{record_audit}
use zero_agent_dev_telegram.Repository.Plan.{in_scope}
use zero_agent_dev_telegram.Repository.Execution.{find_task, update_task_state}
use zero_agent_dev_telegram.WorkerService.Leases.{Claim, commit_claim}
use zero_agent_dev_telegram.WorkerService.Claiming.{
  IsClaimed, taken, as_running, commit_claim-IsClaimed,
}
use zero_agent_dev_telegram.WorkerService.Snapshots.{snapshot}
use zero_agent_dev_telegram.WorkerService.Operators.{Request, commit_requeue}
use zero_agent_dev_telegram.WorkerService.Ordered.{
  state_of_row, state_at, is_done, is_engaged, IsGrowth,
}
use zero_agent_dev_telegram.WorkerService.Ordered.Progress.{IsGrowth-trans}
use zero_agent_dev_telegram.WorkerService.Ordered.Rows.{
  has_task_keys-update, update_task_state-IsGrowth,
}
use zero_agent_dev_telegram.WorkerService.Ordered.Others.{
  KeepsGraph, bind-KeepsGraph, record_audit-KeepsGraph, snapshot-KeepsGraph,
}
use zero_agent_dev_telegram.WorkerService.Ordered.Settled.{same_graph-IsGrowth}

module _ (c : Claim) (task : Task) where
  -- A row that is claimed goes from one of the states of begun work to another.
  engaged_row :
      (o : Option Task)
      → is_engaged (state_of_row (changed (taken c task) as_running o))
        ≡ is_engaged (state_of_row o)
  engaged_row none = refl
  engaged_row (some t) = ground arith

  done_row :
      (o : Option Task)
      → is_done (state_of_row (changed (taken c task) as_running o)) ≡ is_done (state_of_row o)
  done_row none = refl
  done_row (some t) = ground arith

  module _ (w w' : World) (attempt : TaskAttempt) (r : IsClaimed c task w w' attempt) where
    state_of_claimed :
        (k : TaskId)
        → state_at k w'.db
          ≡ state_of_row (changed (taken c task) as_running (find_task k none w.db))
    unfolding state_at find_task
    state_of_claimed k = rw (r.tasks) (
        rw
          (first-update (λ t. t.id == k && in_scope none t.project_id) (taken c task) as_running
            (λ x. refl) w.db.tasks)
          refl)

    claimed-IsGrowth : IsGrowth w.db w'.db
    unfolding state_at
    claimed-IsGrowth = record {
      edges = r.edges;
      keys = λ h.
          rw (r.tasks) (has_task_keys-update (taken c task) as_running (λ x. refl) w.db.tasks ∙ h);
      done = λ k h. ap is_done (state_of_claimed k) ∙ done_row (find_task k none w.db) ∙ h;
      engaged = λ k h.
          let still : is_engaged (state_at k w.db) ≡ true =
            sym (engaged_row (find_task k none w.db))
            ∙ sym (ap is_engaged (state_of_claimed k))
            ∙ h in
          rw still refl;
    }

pub commit_claim-IsGrowth :
    (c : Claim) (execution : Execution) (task : Task) (w w' : World) (attempt : TaskAttempt)
    → commit_claim c (execution, task) w ≡ (ok attempt, w')
    → IsGrowth w.db w'.db
commit_claim-IsGrowth c execution task w w' attempt e =
    claimed-IsGrowth c task w w' attempt (commit_claim-IsClaimed c execution task w w' attempt e)

-- What follows the write of a requeue.
abbrev pub log_requeue : Request → Execution → Task → Exec Unit
log_requeue r execution task = do
  snapshot r.execution_id "task_requeue"
  record_audit execution.project_id r.actor_id r.source Operation.task_requeue (Target.task task.id)
      AuditResult.success (some r.execution_id)

pub log_requeue-KeepsGraph :
    (r : Request) (execution : Execution) (task : Task) → KeepsGraph (log_requeue r execution task)
log_requeue-KeepsGraph r execution task =
    bind-KeepsGraph (snapshot r.execution_id "task_requeue")
      (λ _.
        record_audit execution.project_id r.actor_id r.source Operation.task_requeue
          (Target.task task.id) AuditResult.success (some r.execution_id))
      (snapshot-KeepsGraph r.execution_id "task_requeue")
      (λ _.
        record_audit-KeepsGraph execution.project_id r.actor_id r.source Operation.task_requeue
          (Target.task task.id) AuditResult.success (some r.execution_id))

pub commit_requeue-IsGrowth :
    (r : Request) (execution : Execution) (task : Task) (w w' : World)
    → state_at task.id w.db ≡ some TaskState.failed
    → commit_requeue r (execution, task) w ≡ (ok tt, w')
    → IsGrowth w.db w'.db
unfolding commit_requeue
commit_requeue-IsGrowth r execution task w w' failed e =
    let (_, v, e1, e2) =
      >>=-eq-ok (update_task_state task.id TaskState.ready none none)
        (λ _. log_requeue r execution task) w w'
        (transaction-eq-ok
          (update_task_state task.id TaskState.ready none none >> log_requeue r execution task) w w'
          e) in
    IsGrowth-trans w.db v.db w'.db
      (update_task_state-IsGrowth task.id TaskState.ready none none w v e1 (rw failed refl)
        (rw failed refl))
      (same_graph-IsGrowth v.db w'.db (log_requeue-KeepsGraph r execution task v w' tt e2))
