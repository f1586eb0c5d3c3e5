-- ===== src/WorkerService/Ordered/Reachable.antt =====
-- The transactions of the workers, the scheduler and recovery as interleaved steps over the task
-- graphs of src/zero/app/worker_service.py.
use zero_agent_dev_telegram.Common.{◌≡◌, refl, ℕ, Bool, true, Option, some, List, String}
use zero_agent_dev_telegram.Domain.Audit.{Operation, AuditResult}
use zero_agent_dev_telegram.Domain.Execution.{
  ExecutionId, TaskState, AttemptState, Evidence, Execution, Task, TaskAttempt,
}
use zero_agent_dev_telegram.Domain.Artifacts.{ArtifactId}
use zero_agent_dev_telegram.Database.{World}
use zero_agent_dev_telegram.Exec.{ok}
use zero_agent_dev_telegram.Repository.Attempts.{Fence}
use zero_agent_dev_telegram.WorkerService.Leases.{Claim, commit_claim}
use zero_agent_dev_telegram.WorkerService.Readiness.{recompute_readiness}
use zero_agent_dev_telegram.WorkerService.Transitions.{
  TaskCall, settle_task, complete_task, fail_task, mark_provider_outcome_unknown, cancel_task,
}
use zero_agent_dev_telegram.WorkerService.Operators.{Request, commit_requeue, requeue_failed_task}
use zero_agent_dev_telegram.WorkerService.Recovery.{Recovery, commit_recovery}
use zero_agent_dev_telegram.WorkerService.Ordered.{state_at, has_task_keys, IsOrdered, IsGrowth}
use zero_agent_dev_telegram.WorkerService.Ordered.Progress.{
  IsProgress-IsGrowth, IsGrowth-trans, IsGrowth-IsOrdered, same-IsGrowth,
}
use zero_agent_dev_telegram.WorkerService.Ordered.Kept.{recompute_readiness-IsProgress}
use zero_agent_dev_telegram.WorkerService.Ordered.Others.{IsSameGraph}
use zero_agent_dev_telegram.WorkerService.Ordered.Settled.{settle_task-IsGrowth}
use zero_agent_dev_telegram.WorkerService.Ordered.Started.{
  commit_claim-IsGrowth, commit_requeue-IsGrowth,
}
use zero_agent_dev_telegram.WorkerService.Ordered.Endings.{
  complete_task-IsGrowth, fail_task-IsGrowth, mark_unknown-IsGrowth, cancel_task-IsGrowth,
  requeue-IsGrowth,
}
use zero_agent_dev_telegram.WorkerService.Ordered.Recovered.{commit_recovery-IsGrowth}

-- What commits, in whatever world it comes to run. The five methods that end or requeue a task run as
-- whole calls: nothing commits between what a call reads and its transaction. A claim looks at the row
-- again in its transaction, as a recomputation and a recovery do, and may have read at any earlier
-- time. The source does not look again where it ends or requeues a task: `settle_late` and
-- `requeue_late` are such transactions where the row still has the state that was read. `other` is
-- anything that leaves tasks and edges alone: plans, leases, attempts, the state of executions,
-- snapshots, audit and the clock. Creation and cancellation of an execution are no steps here, nor is
-- `reconcile_blocked_task`, which makes a blocked task ready whatever it waits for.
pub data GraphStep (w : World) : World → Type 0 where
  claim :
      {w' : World} (c : Claim) (execution : Execution) (task : Task) (attempt : TaskAttempt)
      → commit_claim c (execution, task) w ≡ (ok attempt, w')
      → GraphStep w w'
  complete :
      {w' : World} (mentions : String → String → Bool) (n : ℕ) (c : TaskCall)
      (evidence : List String) (ids : List ArtifactId) (t : Task)
      → complete_task mentions n c evidence ids w ≡ (ok t, w')
      → GraphStep w w'
  fail :
      {w' : World} (n : ℕ) (c : TaskCall) (message : String) (t : Task)
      → fail_task n c message w ≡ (ok t, w')
      → GraphStep w w'
  lose :
      {w' : World} (n : ℕ) (c : TaskCall) (message : String) (t : Task)
      → mark_provider_outcome_unknown n c message w ≡ (ok t, w')
      → GraphStep w w'
  cancel :
      {w' : World} (n : ℕ) (c : TaskCall) (reason : String) (t : Task)
      → cancel_task n c reason w ≡ (ok t, w')
      → GraphStep w w'
  requeue :
      {w' : World} (r : Request) (t : Task) → requeue_failed_task r w ≡ (ok t, w') → GraphStep w w'
  settle_late :
      {w' : World} (n : ℕ) (c : TaskCall) (execution : Execution) (task : Task)
      (attempt_state : AttemptState) (message : Option String) (fence : Option Fence)
      (task_state : TaskState) (blocker : Option String) (evidence : Option (List Evidence))
      (reason : String) (operation : Operation) (result : AuditResult)
      → state_at task.id w.db ≡ some TaskState.running
      → settle_task n c execution task attempt_state message fence task_state blocker evidence
          reason operation result w
        ≡ (ok tt, w')
      → GraphStep w w'
  requeue_late :
      {w' : World} (r : Request) (execution : Execution) (task : Task)
      → state_at task.id w.db ≡ some TaskState.failed
      → commit_requeue r (execution, task) w ≡ (ok tt, w')
      → GraphStep w w'
  recompute :
      {w' : World} (execution_id : ExecutionId)
      → recompute_readiness execution_id w ≡ (ok tt, w')
      → GraphStep w w'
  recover :
      {w' : World} (n : ℕ) (r : Recovery) → commit_recovery n r w ≡ (ok tt, w') → GraphStep w w'
  other : {w' : World} → IsSameGraph w.db w'.db → GraphStep w w'

pub data GraphReach (w : World) : World → Type 0 where
  start : GraphReach w w
  after : {u v : World} → GraphReach w u → GraphStep u v → GraphReach w v

GraphStep-IsGrowth :
    {w w' : World} → GraphStep w w' → has_task_keys w.db.tasks ≡ true → IsGrowth w.db w'.db
GraphStep-IsGrowth {w} {w'} (claim c execution task attempt e) keys =
    commit_claim-IsGrowth c execution task w w' attempt e
GraphStep-IsGrowth {w} {w'}
      (settle_late n c execution task attempt_state message fence task_state blocker evidence reason
        operation result runs e)
      keys =
    settle_task-IsGrowth n c execution task reason operation result attempt_state message fence
      task_state blocker evidence w w' keys runs e
GraphStep-IsGrowth {w} {w'} (requeue_late r execution task failed e) keys =
    commit_requeue-IsGrowth r execution task w w' failed e
GraphStep-IsGrowth {w} {w'} (complete mentions n c evidence ids t e) keys =
    complete_task-IsGrowth mentions n c evidence ids w w' t keys e
GraphStep-IsGrowth {w} {w'} (fail n c message t e) keys =
    fail_task-IsGrowth n c message w w' t keys e
GraphStep-IsGrowth {w} {w'} (lose n c message t e) keys =
    mark_unknown-IsGrowth n c message w w' t keys e
GraphStep-IsGrowth {w} {w'} (cancel n c reason t e) keys =
    cancel_task-IsGrowth n c reason w w' t keys e
GraphStep-IsGrowth {w} {w'} (requeue r t e) keys = requeue-IsGrowth r w w' t keys e
GraphStep-IsGrowth {w} {w'} (recompute execution_id e) keys =
    IsProgress-IsGrowth w.db w'.db (recompute_readiness-IsProgress execution_id w w' keys e)
GraphStep-IsGrowth {w} {w'} (recover n r e) keys = commit_recovery-IsGrowth n r w w' keys e
GraphStep-IsGrowth {w} {w'} (other same) keys = same-IsGrowth w.db w'.db same.tasks same.edges

GraphReach-IsGrowth :
    {w w' : World} → GraphReach w w' → has_task_keys w.db.tasks ≡ true → IsGrowth w.db w'.db
GraphReach-IsGrowth {w} {w'} start keys = same-IsGrowth w.db w.db refl refl
GraphReach-IsGrowth {w} {w'} (after {u} r s) keys =
    let g = GraphReach-IsGrowth r keys in
    IsGrowth-trans w.db u.db w'.db g (GraphStep-IsGrowth s (g.keys keys))

-- In any sequence of claims, recomputations, recoveries, of completions, failures, unknown outcomes,
-- cancellations and requeues of tasks that each run as a whole call (or whose transaction comes later,
-- while the row still runs or, for a requeue, still is failed), and of anything that leaves tasks and
-- edges alone, no task is let through (ready, running, completed or failed) whose dependencies are not
-- all complete, if that held at the start, where each id named one task. A claim may have read its
-- task at any earlier time.
pub GraphReach-IsOrdered :
    {w w' : World}
    → has_task_keys w.db.tasks ≡ true
    → IsOrdered w.db
    → GraphReach w w'
    → IsOrdered w'.db
GraphReach-IsOrdered {w} {w'} keys ordered r =
    IsGrowth-IsOrdered w.db w'.db (GraphReach-IsGrowth r keys) ordered
