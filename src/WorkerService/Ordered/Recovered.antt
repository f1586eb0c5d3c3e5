-- ===== src/WorkerService/Ordered/Recovered.antt =====
-- That restart recovery of src/zero/app/worker_service.py keeps the order of work.
use zero_agent_dev_telegram.Common.{
  ◌≡◌, arith, ℕ, true, ◌&&◌, Option, some, List, ◌==◌, if◌then◌else◌,
}
use zero_agent_dev_telegram.Domain.Identity.{ProjectId}
use zero_agent_dev_telegram.Domain.Audit.{Operation, Target, AuditResult}
use zero_agent_dev_telegram.Domain.Execution.{Execution, Task}
use zero_agent_dev_telegram.Database.{World}
use zero_agent_dev_telegram.Exec.{Exec, ok, pure, query, ◌>>=◌, ◌>>◌, >>=-eq-ok, transaction-eq-ok}
use zero_agent_dev_telegram.Repository.Audit.{record_audit}
use zero_agent_dev_telegram.Repository.Execution.{
  get_execution, update_execution_state, list_project_tasks,
}
use zero_agent_dev_telegram.WorkerService.Loops.{for_each}
use zero_agent_dev_telegram.WorkerService.Snapshots.{snapshot}
use zero_agent_dev_telegram.WorkerService.Readiness.{recompute_readiness}
use zero_agent_dev_telegram.WorkerService.Completion.{maybe_complete_execution}
use zero_agent_dev_telegram.WorkerService.Recovery.{
  Recovery, recover_task, is_over, reconcile_state, commit_recovery,
}
use zero_agent_dev_telegram.WorkerService.Ordered.{state_at, has_task_keys, IsOrdered, IsGrowth}
use zero_agent_dev_telegram.WorkerService.Ordered.Progress.{
  all-imp, IsProgress-IsGrowth, IsGrowth-trans, IsGrowth-IsOrdered,
}
use zero_agent_dev_telegram.WorkerService.Ordered.Kept.{
  same_state, same_state-keys, all-select, recompute_readiness-IsProgress,
}
use zero_agent_dev_telegram.WorkerService.Ordered.Others.{
  KeepsGraph, bind-KeepsGraph, record_audit-KeepsGraph, snapshot-KeepsGraph,
  maybe_complete_execution-KeepsGraph,
}
use zero_agent_dev_telegram.WorkerService.Ordered.Settled.{same_graph-IsGrowth}
use zero_agent_dev_telegram.WorkerService.Ordered.Rounds.{
  is_honest, honest_of_same, for_each-IsRecovered,
}

get_execution-KeepsGraph : (id : ℕ) (scope : Option ProjectId) → KeepsGraph (get_execution id scope)
unfolding get_execution
get_execution-KeepsGraph id scope w w' x e = ground arith

module _ (n : ℕ) (r : Recovery) where
  abbrev log_recovery : Execution → Exec Unit
  log_recovery execution = do
    snapshot r.execution_id "restart_recovery"
    record_audit execution.project_id r.actor_id r.source Operation.execution_recover
        (Target.execution execution.id) AuditResult.success (some r.execution_id)

  abbrev settle_state : Execution → Exec Unit
  settle_state execution =
      if is_over execution.state
      then pure tt
      else reconcile_state r.execution_id r.project_id execution

  abbrev settle_execution : Execution → Exec Unit
  settle_execution execution = do settle_state execution; log_recovery execution

  abbrev after_readiness : Exec Unit
  after_readiness = do
    maybe_complete_execution n r.execution_id
    execution ← get_execution r.execution_id (some r.project_id)
    settle_execution execution

  abbrev after_rounds : Exec Unit
  after_rounds = do recompute_readiness r.execution_id; after_readiness

  abbrev recover_graph : Exec Unit
  recover_graph = do
    tasks ← query (list_project_tasks r.execution_id r.project_id)
    for_each (recover_task r.project_id) tasks
    after_rounds

  settle_state-KeepsGraph : (execution : Execution) → KeepsGraph (settle_state execution)
  unfolding reconcile_state update_execution_state
  settle_state-KeepsGraph execution w w' u e = ground arith

  settle_execution-KeepsGraph : (execution : Execution) → KeepsGraph (settle_execution execution)
  settle_execution-KeepsGraph execution =
      bind-KeepsGraph (settle_state execution) (λ _. log_recovery execution)
        (settle_state-KeepsGraph execution)
        (λ _.
          bind-KeepsGraph (snapshot r.execution_id "restart_recovery")
            (λ _.
              record_audit execution.project_id r.actor_id r.source Operation.execution_recover
                (Target.execution execution.id) AuditResult.success (some r.execution_id))
            (snapshot-KeepsGraph r.execution_id "restart_recovery")
            (λ _.
              record_audit-KeepsGraph execution.project_id r.actor_id r.source
                Operation.execution_recover (Target.execution execution.id) AuditResult.success
                (some r.execution_id)))

  after_readiness-KeepsGraph : KeepsGraph after_readiness
  after_readiness-KeepsGraph =
      bind-KeepsGraph (maybe_complete_execution n r.execution_id)
        (λ _. get_execution r.execution_id (some r.project_id) >>= settle_execution)
        (maybe_complete_execution-KeepsGraph n r.execution_id)
        (λ _.
          bind-KeepsGraph (get_execution r.execution_id (some r.project_id)) settle_execution
            (get_execution-KeepsGraph r.execution_id (some r.project_id))
            settle_execution-KeepsGraph)

  recover_graph-IsGrowth :
      (w w' : World)
      → has_task_keys w.db.tasks ≡ true
      → recover_graph w ≡ (ok tt, w')
      → IsGrowth w.db w'.db
  unfolding list_project_tasks
  recover_graph-IsGrowth w w' keys e =
      let tasks : List Task = list_project_tasks r.execution_id r.project_id w.db in
      let (_, v, e1, e2) =
        >>=-eq-ok (for_each (recover_task r.project_id) tasks) (λ _. after_rounds) w w' e in
      let (_, u, e3, e4) =
        >>=-eq-ok (recompute_readiness r.execution_id) (λ _. after_readiness) v w' e2 in
      let p = for_each-IsRecovered r.project_id tasks w v e1 (
        all-imp (λ t. same_state (state_at t.id w.db) t) (is_honest w.db) tasks
          (λ t. honest_of_same (state_at t.id w.db) t)
          (all-select (λ t. same_state (state_at t.id w.db) t)
            (λ t. t.execution_id == r.execution_id && t.project_id == r.project_id) w.db.tasks
            (same_state-keys w.db keys))) in
      IsGrowth-trans w.db v.db w'.db p.growth (
        IsGrowth-trans v.db u.db w'.db
          (IsProgress-IsGrowth v.db u.db
            (recompute_readiness-IsProgress r.execution_id v u (p.keys keys) e3))
          (same_graph-IsGrowth u.db w'.db (after_readiness-KeepsGraph u w' tt e4)))

  pub commit_recovery-IsGrowth :
      (w w' : World)
      → has_task_keys w.db.tasks ≡ true
      → commit_recovery n r w ≡ (ok tt, w')
      → IsGrowth w.db w'.db
  unfolding commit_recovery
  commit_recovery-IsGrowth w w' keys e =
      let (_, v, e1, e2) =
        >>=-eq-ok (get_execution r.execution_id (some r.project_id)) (λ _. recover_graph) w w'
          (transaction-eq-ok
            (get_execution r.execution_id (some r.project_id) >>= (λ _. recover_graph)) w w' e) in
      let same = get_execution-KeepsGraph r.execution_id (some r.project_id) w v _ e1 in
      IsGrowth-trans w.db v.db w'.db (same_graph-IsGrowth w.db v.db same)
        (recover_graph-IsGrowth v w' (rw (same.tasks) keys) e2)

  -- A recovery whose transaction returns keeps the order of work, under the primary key of the tasks'
  -- table: what ran is ready again, and what it depended on is still complete.
  pub commit_recovery-IsOrdered :
      (w w' : World)
      → has_task_keys w.db.tasks ≡ true
      → IsOrdered w.db
      → commit_recovery n r w ≡ (ok tt, w')
      → IsOrdered w'.db
  commit_recovery-IsOrdered w w' keys ordered e =
      IsGrowth-IsOrdered w.db w'.db (commit_recovery-IsGrowth w w' keys e) ordered
