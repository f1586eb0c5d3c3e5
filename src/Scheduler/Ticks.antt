-- ===== src/Scheduler/Ticks.antt =====
-- A tick of `SchedulerService.run_once` of src/zero/app/scheduler_service.py, up to its retry pass:
-- handoffs are claimed, executions drained and failed tasks retried.
use zero_agent_dev_telegram.Common.{
  ℕ, Bool, not, ◌||◌, List, [], ◌++◌, length, ltb, select, if◌then◌else◌,
}
use zero_agent_dev_telegram.Domain.Authorization.{Permission}
use zero_agent_dev_telegram.Domain.Execution.{ExecutionId, Execution}
use zero_agent_dev_telegram.Domain.Errors.{Error}
use zero_agent_dev_telegram.Database.{World}
use zero_agent_dev_telegram.Exec.{Result, Exec, pure, guard, ◌>>=◌, ◌>>◌, query}
use zero_agent_dev_telegram.Authorization.{require_permission}
use zero_agent_dev_telegram.Repository.Execution.{list_executions_for_project}
use zero_agent_dev_telegram.Scheduler.Retries.{Settings, Caller, retry_pass}
use zero_agent_dev_telegram.Scheduler.Drains.{
  Drained, is_runnable, use_parallel, drain_serial, drain_parallel,
}
use zero_agent_dev_telegram.Scheduler.Handoffs.{Intake, claim_handoffs}

unfoldable pub list_project_executions : Caller → Exec (List Execution)
unfolding list_executions_for_project
list_project_executions c = do
  require_permission c.actor_id c.project_id Permission.execution_view_diffs c.source
  query (list_executions_for_project c.project_id)

-- What a tick is given beside its settings: the runtime, the pool that runs drains side by side and
-- yields their outcomes in order, and the bounds.
pub record Tick (R : Type 0) : Type 0 where
  pub run_ready_tasks : ExecutionId → ℕ → Exec (List R)
  pub run_pool : List Execution → ℕ → World → List (Result (List R)) × World
  pub parallel : ℕ
  pub max_handoffs : ℕ
  pub max_tasks : ℕ

pub record TickResult (R : Type 0) : Type 0 where
  pub handoffs_claimed : ℕ
  pub executions_seen : ℕ
  pub task_results : List R
  pub failed : List ℕ

module _ {R : Type 0} where
  unfoldable pub drain : Tick R → List Execution → Exec (Drained R)
  unfolding drain_serial drain_parallel
  drain t runnable w =
      if use_parallel t.parallel runnable
      then (let (outcomes, w') = t.run_pool runnable t.max_tasks w in
          (drain_parallel t.max_tasks runnable outcomes, w'))
      else drain_serial t.run_ready_tasks t.max_tasks runnable ([], []) w

  abbrev pub in_bounds : Tick R → Bool
  in_bounds t =
      not
        (ltb t.max_handoffs 1 || ltb 64 t.max_handoffs || ltb t.max_tasks 1 || ltb 128 t.max_tasks)

  unfoldable pub run_tick : Settings → Intake → Caller → Tick R → Exec (TickResult R)
  unfolding claim_handoffs list_project_executions drain retry_pass
  run_tick s intake c t = do
    guard (in_bounds t) Error.value_error
    require_permission c.actor_id c.project_id Permission.execution_start c.source
    claimed ← claim_handoffs intake c t.max_handoffs
    executions ← list_project_executions c
    drained ← drain t (select is_runnable executions)
    retried ← retry_pass s c (select is_runnable executions)
    pure (record {
      handoffs_claimed = claimed.0;
      executions_seen = length executions;
      task_results = drained.0;
      failed = claimed.1 ++ drained.1 ++ retried;
    })
