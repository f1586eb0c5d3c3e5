-- ===== src/Examples/Instances.antt =====
-- Runs of src/zero/app/agent_type_service.py and of its repository over the sample project.
use zero_agent_dev_telegram.Common.{
  ◌≡◌, refl, arith, none, some, List, [], ◌∷◌, first, select, update,
}
use zero_agent_dev_telegram.Domain.Audit.{Source}
use zero_agent_dev_telegram.Domain.AgentTypes.{
  AgentTypeState, AgentInstanceState, AgentType, AgentInstance,
}
use zero_agent_dev_telegram.Domain.Errors.{Error}
use zero_agent_dev_telegram.Exec.{err}
use zero_agent_dev_telegram.AgentTypes.Store.{
  Pool, is_type, get_agent_type, count_running_instances, release_stale_running_instances, lease_in,
  lease_instance_for_task,
}
use zero_agent_dev_telegram.AgentTypes.Instances.{InstanceCall, assign_instance_to_task}
use zero_agent_dev_telegram.AgentTypes.Limits.{IsWithin}
use zero_agent_dev_telegram.AgentTypes.Steps.{
  start, after, assign, lease, release_stale, PoolReach-IsWithin,
}
use zero_agent_dev_telegram.AgentTypes.Edits.{TypeEdit, edited, update_type, update_type-foreign}
use zero_agent_dev_telegram.Authorization.{require_permission, authorize}
use zero_agent_dev_telegram.AgentTypes.Leaks.{is_in_use, is_genuine, release_stale-leaves}
use zero_agent_dev_telegram.Samples.{world}

abbrev builder : AgentType
builder = record {
  id = 700;
  project_id = 10;
  name = "builder";
  responsibility = "builds";
  memory_scope = "build";
  permitted_tools = [];
  context_budget_tokens = 100_000;
  max_concurrent_instances = 2;
  state = AgentTypeState.active;
  version = 1;
}

-- The first instance works on a running task, the second is free, and the third leaked: its task has
-- failed.
abbrev instances : List AgentInstance
instances =
    record {
      id = 801;
      project_id = 10;
      agent_type_id = 700;
      task_id = some 301;
      state = AgentInstanceState.running;
    }
    ∷ record {
      id = 802;
      project_id = 10;
      agent_type_id = 700;
      task_id = none;
      state = AgentInstanceState.idle;
    }
    ∷ record {
      id = 803;
      project_id = 10;
      agent_type_id = 700;
      task_id = some 304;
      state = AgentInstanceState.running;
    }
    ∷ []

abbrev pool : Pool
pool = record { world = world; agent_types = builder ∷ []; agent_instances = instances }

abbrev call : InstanceCall
call = record { project_id = 10; actor_id = 1; source = Source.system }

pool-IsWithin : IsWithin pool
unfolding select
pool-IsWithin = record { keyed = refl; limited = λ t. ground arith }

-- A lease is refused while the leaked one counts.
leak_blocks : (lease_instance_for_task 10 700 303 pool).0 ≡ err Error.concurrency_limit_exceeded
unfolding lease_instance_for_task lease_in get_agent_type count_running_instances first select
leak_blocks = refl

PoolReach-IsWithin_example :
    IsWithin
      (lease_instance_for_task 10 700 303
        (assign_instance_to_task call 802 303
          (release_stale_running_instances AgentInstanceState.cancelled pool).1).1).1
PoolReach-IsWithin_example = PoolReach-IsWithin pool-IsWithin (
    after
      (after (after start (release_stale AgentInstanceState.cancelled refl)) (assign call 802 303))
      (lease 10 700 303))

release_stale-leaves_example :
    select is_in_use
      (release_stale_running_instances AgentInstanceState.cancelled pool).1.agent_instances
    ≡ select (is_genuine world.db.tasks) instances
release_stale-leaves_example = release_stale-leaves AgentInstanceState.cancelled pool refl

-- The same type, of another project.
abbrev foreign_pool : Pool
foreign_pool = record {
  world = world;
  agent_types = record builder { project_id = 11 } ∷ [];
  agent_instances = [];
}

abbrev wider : TypeEdit
wider = record {
  responsibility = none;
  memory_scope = none;
  permitted_tools = some ("shell" ∷ []);
  context_budget_tokens = none;
  max_concurrent_instances = some 9;
}

update_type-foreign_example :
    ((update_type call 700 wider foreign_pool).0 ≡ err Error.agent_type_not_found)
    × ((update_type call 700 wider foreign_pool).1.agent_types
        ≡ update (is_type 700) (edited wider) foreign_pool.agent_types)
unfolding require_permission authorize first
update_type-foreign_example = update_type-foreign call 700 wider foreign_pool _ _ refl refl refl
