-- ===== src/AgentTypes/Instances.antt =====
-- The methods of src/zero/app/agent_type_service.py on instances. `complete_instance` asks for no
-- permission, as in the source.
use zero_agent_dev_telegram.Common.{Bool, some, none, ltb, if◌then◌else◌}
use zero_agent_dev_telegram.Domain.Identity.{UserId, ProjectId}
use zero_agent_dev_telegram.Domain.Authorization.{Permission}
use zero_agent_dev_telegram.Domain.Audit.{Source}
use zero_agent_dev_telegram.Domain.Execution.{TaskId}
use zero_agent_dev_telegram.Domain.AgentTypes.{
  AgentTypeId, AgentInstanceId, AgentInstanceState, AgentInstance, is_active_type, is_idle,
  is_running_instance,
}
use zero_agent_dev_telegram.Domain.Errors.{Error}
use zero_agent_dev_telegram.Exec.{generate_token}
use zero_agent_dev_telegram.Authorization.{require_permission}
use zero_agent_dev_telegram.AgentTypes.Store.{
  PoolExec, return, in_world, atomically, ◌>>=◌, ◌>>◌, require, look, get_agent_type, get_instance,
  count_running_instances, insert_instance, update_instance_state,
}

-- The arguments that all methods share.
pub record InstanceCall : Type 0 where
  pub project_id : ProjectId
  pub actor_id : UserId
  pub source : Source

abbrev pub created : ProjectId → AgentTypeId → AgentInstanceId → AgentInstance
created project_id type_id id = record {
  id = id;
  project_id = project_id;
  agent_type_id = type_id;
  task_id = none;
  state = AgentInstanceState.idle;
}

unfoldable pub create_instance : InstanceCall → AgentTypeId → PoolExec AgentInstance
unfolding get_agent_type insert_instance generate_token require_permission
create_instance c type_id = do
  in_world (require_permission c.actor_id c.project_id Permission.agent_manage c.source)
  agent_type ← get_agent_type c.project_id type_id
  require (is_active_type agent_type.state) Error.invalid_agent_type_transition
  id ← in_world generate_token
  insert_instance (created c.project_id type_id id)
  return (created c.project_id type_id id)

-- The body of the write transaction.
unfoldable pub assign_in : ProjectId → AgentInstance → TaskId → PoolExec Unit
unfolding get_agent_type get_instance count_running_instances update_instance_state
assign_in project_id instance task_id = do
  agent_type ← get_agent_type project_id instance.agent_type_id
  current ← get_instance instance.id
  require (is_idle current.state) Error.invalid_agent_type_transition
  running ← look (count_running_instances instance.agent_type_id)
  require (ltb running agent_type.max_concurrent_instances) Error.concurrency_limit_exceeded
  update_instance_state instance.id AgentInstanceState.running (some task_id)

unfoldable pub assign_instance_to_task :
    InstanceCall → AgentInstanceId → TaskId → PoolExec AgentInstance
unfolding assign_in get_instance require_permission
assign_instance_to_task c instance_id task_id = do
  in_world (require_permission c.actor_id c.project_id Permission.execution_start c.source)
  instance ← get_instance instance_id
  require (is_idle instance.state) Error.invalid_agent_type_transition
  atomically (assign_in c.project_id instance task_id)
  get_instance instance_id

abbrev pub outcome : Bool → AgentInstanceState
outcome succeeded = if succeeded then AgentInstanceState.completed else AgentInstanceState.failed

unfoldable pub complete_instance :
    InstanceCall → AgentInstanceId → (succeeded : Bool) → PoolExec AgentInstance
unfolding get_instance update_instance_state
complete_instance c instance_id succeeded = do
  instance ← get_instance instance_id
  require (is_running_instance instance.state) Error.invalid_agent_type_transition
  update_instance_state instance_id (outcome succeeded) none
  get_instance instance_id
