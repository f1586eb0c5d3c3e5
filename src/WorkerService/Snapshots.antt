-- ===== src/WorkerService/Snapshots.antt =====
-- `_snapshot` of src/zero/app/worker_service.py: the graph as the next numbered snapshot.
use zero_agent_dev_telegram.Common.{ℕ, suc, Option, none, some, String}
use zero_agent_dev_telegram.Domain.Execution.{ExecutionId, ExecutionSnapshot}
use zero_agent_dev_telegram.Exec.{Exec, ◌>>=◌, query, generate_token}
use zero_agent_dev_telegram.Repository.Execution.{
  get_execution, list_tasks_for_execution, list_all_dependencies_for_execution,
}
use zero_agent_dev_telegram.Repository.Attempts.{get_latest_snapshot, insert_snapshot}

abbrev next_version : Option ExecutionSnapshot → ℕ
next_version none = 1
next_version (some existing) = suc existing.snapshot_version

unfoldable pub snapshot : ExecutionId → String → Exec Unit
unfolding get_execution generate_token insert_snapshot
snapshot execution_id reason = do
  execution ← get_execution execution_id none
  tasks ← query (list_tasks_for_execution execution_id)
  dependencies ← query (list_all_dependencies_for_execution execution_id)
  existing ← query (get_latest_snapshot execution_id)
  id ← generate_token
  insert_snapshot (record {
    id = id;
    execution_id = execution_id;
    project_id = execution.project_id;
    snapshot_version = next_version existing;
    execution_state = execution.state;
    blocker_reason = execution.blocker_reason;
    tasks = tasks;
    dependencies = dependencies;
    snapshot_reason = reason;
  })
