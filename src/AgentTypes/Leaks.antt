-- ===== src/AgentTypes/Leaks.antt =====
-- The sweep of src/zero/persistence/repositories/agent_type_repository.py over leases that leaked.
use zero_agent_dev_telegram.Common.{
  ◌≡◌, refl, arith, Bool, false, ◌&&◌, none, List, [], ◌∷◌, select, update,
}
use zero_agent_dev_telegram.Domain.Execution.{Task}
use zero_agent_dev_telegram.Domain.AgentTypes.{
  AgentInstanceState, AgentInstance, is_running_instance,
}
use zero_agent_dev_telegram.AgentTypes.Store.{
  Pool, moved, has_running_task, is_stale, release_stale_running_instances,
}

abbrev pub is_in_use : AgentInstance → Bool
is_in_use i = is_running_instance i.state

-- A running instance of a task that is_in_use.
abbrev pub is_genuine : List Task → AgentInstance → Bool
is_genuine tasks i = is_in_use i && has_running_task tasks i.task_id

swept :
    (tasks : List Task) (new_state : AgentInstanceState) (rows : List AgentInstance)
    → is_running_instance new_state ≡ false
    → select is_in_use (update (is_stale tasks) (moved new_state none) rows)
      ≡ select (is_genuine tasks) rows
unfolding select update
swept tasks new_state [] ended = refl
swept tasks new_state (i ∷ is) ended = ground (arith, swept tasks new_state is)

-- After the sweep, into a state other than `running`, the running instances are exactly those that ran
-- before for a task in the state running, unchanged and in their order.
pub release_stale-leaves :
    (new_state : AgentInstanceState) (p : Pool)
    → is_running_instance new_state ≡ false
    → select is_in_use (release_stale_running_instances new_state p).1.agent_instances
      ≡ select (is_genuine p.world.db.tasks) p.agent_instances
unfolding release_stale_running_instances
release_stale-leaves new_state p ended = swept p.world.db.tasks new_state p.agent_instances ended
