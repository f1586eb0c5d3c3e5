-- ===== src/Scheduler/Requeues.antt =====
-- What a requeue and a retry stamp of src/zero/app/worker_service.py do to the tasks' table.
use zero_agent_dev_telegram.Common.{
  ◌≡◌, ◌∙◌, ap, arith, Option, none, some, String, List, ◌==◌, first_holds, ◌&&◌, update,
}
use zero_agent_dev_telegram.Domain.Authorization.{Permission, AuthorizationDecision}
use zero_agent_dev_telegram.Domain.Audit.{Source, Operation, Target, AuditResult}
use zero_agent_dev_telegram.Domain.Execution.{ExecutionId, TaskId, TaskState, Execution, Task}
use zero_agent_dev_telegram.Database.{World}
use zero_agent_dev_telegram.Exec.{Exec, ok, ◌>>=◌, ◌>>◌, >>=-eq-ok, transaction-eq-ok}
use zero_agent_dev_telegram.Authorization.Decision.{require_permission-refines-policy}
use zero_agent_dev_telegram.Repository.Execution.{
  task_with, update_task_state, set_task_next_retry_at, get_task, find_task, get_execution,
}
use zero_agent_dev_telegram.WorkerService.Leases.{read_task}
use zero_agent_dev_telegram.Repository.Plan.{in_scope}
use zero_agent_dev_telegram.Authorization.{require_permission}
use zero_agent_dev_telegram.Domain.Identity.{UserId, ProjectId}
use zero_agent_dev_telegram.Repository.Audit.{record_audit}
use zero_agent_dev_telegram.WorkerService.Snapshots.{snapshot}
use zero_agent_dev_telegram.WorkerService.Ordered.Rows.{update_task_state-tasks}
use zero_agent_dev_telegram.WorkerService.Operators.{
  Request, open_request, commit_requeue, requeue_failed_task, schedule_task_retry,
}

abbrev pub with_stamp : Option String → Task → Task
with_stamp stamp t = record t { next_retry_at = stamp }

-- What a step that returns did to the tables of tasks and attempts, and that it left the clock alone.
pub record IsTaskStep (f : List Task → List Task) (w w' : World) : Type 0 where
  pub tasks : w'.db.tasks ≡ f w.db.tasks
  pub now : w'.now ≡ w.now

-- What follows the write of a requeue or of a stamp leaves tasks and clock alone.
abbrev log_requeue : Request → Execution → Task → Exec Unit
log_requeue r execution task = do
  snapshot r.execution_id "task_requeue"
  record_audit execution.project_id r.actor_id r.source Operation.task_requeue (Target.task task.id)
      AuditResult.success (some r.execution_id)

snapshot-keeps :
    (id : ExecutionId) (reason : String) (w w' : World)
    → snapshot id reason w ≡ (ok tt, w')
    → (w'.db.tasks ≡ w.db.tasks) × (w'.now ≡ w.now)
unfolding snapshot
snapshot-keeps id reason w w' e = ground arith

log_requeue-keeps :
    (r : Request) (execution : Execution) (task : Task) (w w' : World)
    → log_requeue r execution task w ≡ (ok tt, w')
    → (w'.db.tasks ≡ w.db.tasks) × (w'.now ≡ w.now)
unfolding record_audit
log_requeue-keeps r execution task w w' e =
    let (_, v, e1, e2) =
      >>=-eq-ok (snapshot r.execution_id "task_requeue")
        (λ _.
          record_audit execution.project_id r.actor_id r.source Operation.task_requeue
            (Target.task task.id) AuditResult.success (some r.execution_id))
        w w' e in
    ground (arith, snapshot-keeps r.execution_id "task_requeue" w v e1)

commit_requeue-IsTaskStep :
    (r : Request) (execution : Execution) (task : Task) (w w' : World)
    → commit_requeue r (execution, task) w ≡ (ok tt, w')
    → IsTaskStep (update (λ t. t.id == task.id) (task_with w.now TaskState.ready none none)) w w'
unfolding commit_requeue
commit_requeue-IsTaskStep r execution task w w' e =
    let (_, v, e1, e2) =
      >>=-eq-ok (update_task_state task.id TaskState.ready none none)
        (λ _. log_requeue r execution task) w w'
        (transaction-eq-ok
          (update_task_state task.id TaskState.ready none none >> log_requeue r execution task) w w'
          e) in
    let (tasks, now) = log_requeue-keeps r execution task v w' e2 in
    let written = update_task_state-tasks task.id TaskState.ready none none w v e1 in
    record {
      tasks = tasks ∙ ap (λ (x : World). x.db.tasks) written;
      now = now ∙ ap (λ (x : World). x.now) written;
    }

set_stamp-IsTaskStep :
    (task_id : TaskId) (stamp : Option String) (w w' : World)
    → set_task_next_retry_at task_id stamp w ≡ (ok tt, w')
    → IsTaskStep (update (λ t. t.id == task_id) (with_stamp stamp)) w w'
unfolding set_task_next_retry_at
set_stamp-IsTaskStep task_id stamp w w' e = record { tasks = ground arith; now = ground arith }

-- A stamp, once the task has been read.
abbrev write_stamp : Request → String → Task → Exec Task
write_stamp r stamp task = do
  set_task_next_retry_at task.id (some stamp)
  record_audit task.project_id r.actor_id r.source Operation.task_retry_scheduled
      (Target.task task.id) AuditResult.success (some task.execution_id)
  get_task r.task_id (some r.project_id)

logged-keeps :
    (r : Request) (found : Task) (w w' : World) (task : Task)
    → (do
      record_audit found.project_id r.actor_id r.source Operation.task_retry_scheduled
          (Target.task found.id)
          AuditResult.success
          (some found.execution_id)
      get_task r.task_id (some r.project_id))
        w
      ≡ (ok task, w')
    → (w'.db.tasks ≡ w.db.tasks) × (w'.now ≡ w.now)
unfolding record_audit get_task
logged-keeps r found w w' task e = ground arith

write_stamp-IsTaskStep :
    (r : Request) (stamp : String) (found : Task) (w w' : World) (task : Task)
    → write_stamp r stamp found w ≡ (ok task, w')
    → IsTaskStep (update (λ t. t.id == found.id) (with_stamp (some stamp))) w w'
write_stamp-IsTaskStep r stamp found w w' task e =
    let (_, v, e1, e2) =
      >>=-eq-ok (set_task_next_retry_at found.id (some stamp))
        (λ _. do
          record_audit found.project_id r.actor_id r.source Operation.task_retry_scheduled
              (Target.task found.id) AuditResult.success (some found.execution_id)
          get_task r.task_id (some r.project_id))
        w w' e in
    let (tasks, now) = logged-keeps r found v w' task e2 in
    let s = set_stamp-IsTaskStep found.id (some stamp) w v e1 in
    record { tasks = tasks ∙ s.tasks; now = now ∙ s.now }

get_task-found :
    (task_id : TaskId) (project : ProjectId) (w w' : World) (task : Task)
    → get_task task_id (some project) w ≡ (ok task, w')
    → (w' ≡ w) × (task.id ≡ task_id)
unfolding get_task find_task
get_task-found task_id project w w' task e = ground (
  arith,
  first_holds (λ t. t.id == task_id && in_scope (some project) t.project_id) w.db.tasks {a = task},
)

pub require_permission-keeps :
    (actor : UserId) (project : ProjectId) (permission : Permission) (source : Source)
    (w w' : World) (d : AuthorizationDecision)
    → require_permission actor project permission source w ≡ (ok d, w')
    → w' ≡ w
require_permission-keeps actor project permission source w w' d e =
    ground (arith, require_permission-refines-policy actor project permission source w)

pub schedule_task_retry-IsTaskStep :
    (r : Request) (stamp : String) (w w' : World) (task : Task)
    → schedule_task_retry r stamp w ≡ (ok task, w')
    → IsTaskStep (update (λ t. t.id == r.task_id) (with_stamp (some stamp))) w w'
unfolding schedule_task_retry
schedule_task_retry-IsTaskStep r stamp w w' task e =
    let rest : Exec Task = get_task r.task_id (some r.project_id) >>= write_stamp r stamp in
    let (d, u, e1, e2) =
      >>=-eq-ok (require_permission r.actor_id r.project_id Permission.execution_start r.source)
        (λ _. rest) w w' e in
    let (found, v, e3, e4) =
      >>=-eq-ok (get_task r.task_id (some r.project_id)) (write_stamp r stamp) u w' e2 in
    let (same, named) = get_task-found r.task_id r.project_id u v found e3 in
    let start =
      require_permission-keeps r.actor_id r.project_id Permission.execution_start r.source w u d
        e1 in
    let s = write_stamp-IsTaskStep r stamp found v w' task e4 in
    record {
      tasks = rw (← named, ← start, ← same) s.tasks;
      now = s.now ∙ ap (λ (x : World). x.now) (same ∙ start);
    }

open_request-found :
    (r : Request) (w w' : World) (execution : Execution) (task : Task)
    → open_request TaskState.failed r w ≡ (ok (execution, task), w')
    → (w' ≡ w) × (task.id ≡ r.task_id)
unfolding open_request read_task get_execution get_task find_task
open_request-found r w w' execution task e = ground (
  arith,
  require_permission-refines-policy r.actor_id r.project_id Permission.execution_start r.source w,
  first_holds (λ t. t.id == r.task_id && in_scope (some r.project_id) t.project_id) w.db.tasks
      {a = task},
)

pub requeue_failed_task-IsTaskStep :
    (r : Request) (w w' : World) (task : Task)
    → requeue_failed_task r w ≡ (ok task, w')
    → IsTaskStep (update (λ t. t.id == r.task_id) (task_with w.now TaskState.ready none none)) w w'
unfolding requeue_failed_task
requeue_failed_task-IsTaskStep r w w' task e =
    let ((execution, found), u, e1, e2) =
      >>=-eq-ok (open_request TaskState.failed r)
        (λ x. commit_requeue r x >> get_task r.task_id (some r.project_id)) w w' e in
    let (_, v, e3, e4) =
      >>=-eq-ok (commit_requeue r (execution, found)) (λ _. get_task r.task_id (some r.project_id))
        u w' e2 in
    let (same, _) = get_task-found r.task_id r.project_id v w' task e4 in
    let (start, named) = open_request-found r w u execution found e1 in
    let s = commit_requeue-IsTaskStep r execution found u v e3 in
    record {
      tasks = ap (λ (x : World). x.db.tasks) same ∙ rw (← named, ← start) s.tasks;
      now = ap (λ (x : World). x.now) same ∙ s.now ∙ ap (λ (x : World). x.now) start;
    }
