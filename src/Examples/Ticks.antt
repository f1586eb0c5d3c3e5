-- ===== src/Examples/Ticks.antt =====
-- Ticks of src/zero/app/scheduler_service.py over the sample execution.
use zero_agent_dev_telegram.Common.{
  ◌≡◌, refl, arith, ℕ, suc, ◌-◌, ◌*◌, ◌/◌, ◌^◌, ◌≤◌, ◌<◌, ◌⊎◌, ◌&&◌, true, false, none, some, [],
  ◌∷◌, any, length, first, select, update,
}
use zero_agent_dev_telegram.Domain.Audit.{Source}
use zero_agent_dev_telegram.Domain.Execution.{TaskState, Task}
use zero_agent_dev_telegram.Database.{World}
use zero_agent_dev_telegram.Exec.{ok, err}
use zero_agent_dev_telegram.Domain.Errors.{Error}
use zero_agent_dev_telegram.Repository.Execution.{claimable}
use zero_agent_dev_telegram.Repository.Plan.{take}
use zero_agent_dev_telegram.Repository.Attempts.{list_attempts_for_task}
use zero_agent_dev_telegram.Scheduler.Backoff.{
  base_delay, compute_retry_delay, min, compute_retry_delay-bounds,
}
use zero_agent_dev_telegram.Scheduler.Retries.{
  Settings, Caller, retry_task, requeue_and_stamp, retry_delay_elapsed,
}
use zero_agent_dev_telegram.Scheduler.Budget.{
  retried, stamp_at, has_stamp, retry_task-budget, requeue_and_stamp-claimable,
}
use zero_agent_dev_telegram.Scheduler.Handoffs.{Intake, task_specs_for_revision}
use zero_agent_dev_telegram.Scheduler.Fallback.{Usable, task_specs_for_revision-Usable}
use zero_agent_dev_telegram.Scheduler.Ticks.{Tick, TickResult, run_tick}
use zero_agent_dev_telegram.Scheduler.Drains.{parallel_executions}
use zero_agent_dev_telegram.Scheduler.Bounds.{run_tick-bounds, length-take}
use zero_agent_dev_telegram.Samples.{task, revision, world}
use zero_agent_dev_telegram.Authorization.{require_permission}
use zero_agent_dev_telegram.Authorization.{authorize}
use zero_agent_dev_telegram.Repository.Execution.{find_task}
use zero_agent_dev_telegram.Repository.Execution.{find_execution}
use zero_agent_dev_telegram.WorkerService.Operators.{commit_requeue}
use zero_agent_dev_telegram.WorkerService.Snapshots.{snapshot}
use zero_agent_dev_telegram.Repository.Audit.{record_audit}

compute_retry_delay-bounds_example :
    (base_delay 3 ≡ min (60 * 2 ^ (3 - 1)) 3600)
    × (base_delay 3 ≤ base_delay (suc 3))
    × (60 ≤ compute_retry_delay 3 none (λ base. base / 2))
    × (base_delay 3 ≤ compute_retry_delay 3 none (λ base. base / 2))
    × (2 * compute_retry_delay 3 none (λ base. base / 2) ≤ 3 * base_delay 3)
    × (compute_retry_delay 3 none (λ base. base / 2) ≤ 3600)
    × (compute_retry_delay 3 (some 17) (λ base. base / 2) ≡ min 17 3600)
compute_retry_delay-bounds_example =
    compute_retry_delay-bounds 3 17 (λ base. base / 2) (λ base. omega arith)

abbrev settings : Settings
settings = record {
  task_max_attempts = 3;
  parse_iso_utc = λ stamp. none;
  format_utc = λ n. "2026-11-26T19:00:00Z";
  parse_retry_after_seconds = λ message. none;
  redact = λ message. message;
  jitter = λ draw base. 0;
}

abbrev caller : Caller
caller = record { project_id = 10; actor_id = 1; source = Source.system }

abbrev failed_task : Task
failed_task = task 304 TaskState.failed []

abbrev after_retry : World
after_retry = (retry_task settings caller 200 failed_task world).1

retry_task-budget_example :
    (after_retry ≡ world)
    ⊎ ((failed_task.state ≡ TaskState.failed)
        × (retry_delay_elapsed settings world.now failed_task.next_retry_at ≡ true)
        × (length (list_attempts_for_task failed_task.id world.db) < settings.task_max_attempts)
        × (v : World) × (after_retry.db.tasks
            ≡ retried world.now failed_task.id
                (stamp_at settings world.now (list_attempts_for_task failed_task.id world.db) v)
                world.db.tasks))
unfolding retry_task require_permission authorize first find_task select find_execution
    commit_requeue snapshot record_audit update
retry_task-budget_example = retry_task-budget settings caller 200 failed_task world after_retry refl

abbrev after_requeue : World
after_requeue = (requeue_and_stamp settings caller 200 failed_task [] world).1

requeue_and_stamp-claimable_example :
    (v : World) × (any
        (λ t.
          claimable 200 failed_task.id caller.project_id t
          && has_stamp (stamp_at settings world.now [] v) t)
        after_requeue.db.tasks
      ≡ true)
unfolding requeue_and_stamp require_permission authorize first find_execution find_task
    commit_requeue snapshot record_audit update
requeue_and_stamp-claimable_example =
    requeue_and_stamp-claimable settings caller 200 failed_task [] world after_requeue refl refl

-- A decomposer that raises.
task_specs_for_revision-Usable_example : Usable (
    task_specs_for_revision
      (some (λ r w. (err Error.runtime_error, w)))
      revision
      ("provider_response" ∷ [])
      none
      world)
task_specs_for_revision-Usable_example =
    task_specs_for_revision-Usable (some (λ r w. (err Error.runtime_error, w))) revision
      ("provider_response" ∷ []) none world refl

abbrev tick : Tick ℕ
tick = record {
  run_ready_tasks = λ id budget w. (ok (take budget (7 ∷ [])), w);
  run_pool = λ runnable budget w. ([], w);
  parallel = 1;
  max_handoffs = 8;
  max_tasks = 16;
}

abbrev intake : Intake
intake = record { decomposer = none; agent_types = none; has_repository = false }

abbrev seen : TickResult ℕ
seen = record { handoffs_claimed = 0; executions_seen = 1; task_results = 7 ∷ []; failed = [] }

abbrev no_retries : Settings
no_retries = record settings { task_max_attempts = 0 }

run_tick-bounds_example :
    (seen.handoffs_claimed ≤ tick.max_handoffs)
    × (tick.max_handoffs ≤ 64)
    × (length seen.task_results ≤ tick.max_tasks)
    × (tick.max_tasks ≤ 128)
unfolding run_tick require_permission authorize select parallel_executions
run_tick-bounds_example =
    run_tick-bounds no_retries intake caller tick world world seen
      (λ id budget w w' batch e. ground (arith, length-take {A = ℕ} budget (7 ∷ []))) refl
