-- ===== src/AgentTypes/Store.antt =====
-- src/zero/persistence/repositories/agent_type_repository.py: the rows of `agent_types` and
-- `agent_instances`, beside the tables of the rest of the program.
use zero_agent_dev_telegram.Common.{
  ℕ, Bool, true, false, not, ◌&&◌, Option, none, some, List, [], ◌∷◌, ◌++◌, ◌==◌, ltb, any, first,
  select, update, length,
}
use zero_agent_dev_telegram.Domain.Identity.{ProjectId}
use zero_agent_dev_telegram.Domain.Execution.{TaskId, TaskState, Task, task_state_eq}
use zero_agent_dev_telegram.Domain.AgentTypes.{
  AgentTypeId, AgentInstanceId, AgentInstanceState, AgentType, AgentInstance, is_active_type,
  is_running_instance,
}
use zero_agent_dev_telegram.Domain.Errors.{Error}
use zero_agent_dev_telegram.Database.{World}
use zero_agent_dev_telegram.Exec.{Result, ok, err, Exec, generate_token}

pub record Pool : Type 0 where
  pub world : World
  pub agent_types : List AgentType
  pub agent_instances : List AgentInstance

abbrev pub PoolExec : Type 0 → Type 0
PoolExec A = Pool → Result A × Pool

module _ {A : Type 0} where
  abbrev pub return : A → PoolExec A
  return a p = (ok a, p)

  abbrev pub or_fail : Error → Option A → PoolExec A
  or_fail e none p = (err e, p)
  or_fail e (some a) p = (ok a, p)

  -- A method of the other services, which does not reach these two tables.
  abbrev pub in_world : Exec A → PoolExec A
  in_world m p = ((m p.world).0, record p { world = (m p.world).1 })

  abbrev rolled_back : Pool → Result A × Pool → Result A × Pool
  rolled_back before (ok a, p) = (ok a, p)
  rolled_back before (err e, p) = (
    err e,
    record p { agent_types = before.agent_types; agent_instances = before.agent_instances },
  )

  abbrev pub atomically : PoolExec A → PoolExec A
  atomically m p = rolled_back p (m p)

module _ {A B : Type 0} where
  abbrev go_on : (A → PoolExec B) → Result A × Pool → Result B × Pool
  go_on f (ok a, p) = f a p
  go_on f (err e, p) = (err e, p)

  infixl 10 ◌>>=◌ ◌>>◌
  abbrev pub ◌>>=◌ : PoolExec A → (A → PoolExec B) → PoolExec B
  ◌>>=◌ m f p = go_on f (m p)

  abbrev pub ◌>>◌ : PoolExec A → PoolExec B → PoolExec B
  ◌>>◌ m n p = go_on (λ _. n) (m p)

abbrev pub require : Bool → Error → PoolExec Unit
require true e p = (ok tt, p)
require false e p = (err e, p)

abbrev pub look : {A : Type 0} → (Pool → A) → PoolExec A
look f p = (ok (f p), p)

abbrev pub with_instances : (List AgentInstance → List AgentInstance) → PoolExec Unit
with_instances f p = (ok tt, record p { agent_instances = f p.agent_instances })

abbrev pub is_type : AgentTypeId → AgentType → Bool
is_type id a = a.id == id

abbrev pub is_instance : AgentInstanceId → AgentInstance → Bool
is_instance id i = i.id == id

abbrev pub runs_as : AgentTypeId → AgentInstance → Bool
runs_as id i = i.agent_type_id == id && is_running_instance i.state

unfoldable pub get_agent_type : ProjectId → AgentTypeId → PoolExec AgentType
get_agent_type project_id type_id p =
    or_fail Error.agent_type_not_found
      (first (λ a. is_type type_id a && a.project_id == project_id) p.agent_types) p

unfoldable pub get_instance : AgentInstanceId → PoolExec AgentInstance
get_instance id p =
    or_fail Error.agent_instance_not_found (first (is_instance id) p.agent_instances) p

unfoldable pub count_running_instances : AgentTypeId → Pool → ℕ
count_running_instances type_id p = length (select (runs_as type_id) p.agent_instances)

-- `id` is the primary key.
unfoldable pub insert_instance : AgentInstance → PoolExec Unit
insert_instance instance = do
  taken ← look (λ p. any (is_instance instance.id) p.agent_instances)
  require (not taken) Error.integrity_error
  with_instances (λ rows. rows ++ instance ∷ [])

abbrev keep_task : Option TaskId → Option TaskId → Option TaskId
keep_task none old = old
keep_task (some task) old = some task

abbrev pub moved : AgentInstanceState → Option TaskId → AgentInstance → AgentInstance
moved state task i = record i { state = state; task_id = keep_task task i.task_id }

unfoldable pub update_instance_state :
    AgentInstanceId → AgentInstanceState → Option TaskId → PoolExec Unit
update_instance_state id new_state task = do
  hit ← look (λ p. any (is_instance id) p.agent_instances)
  require hit Error.agent_instance_not_found
  with_instances (update (is_instance id) (moved new_state task))

unfoldable pub finish_instance : AgentInstanceId → AgentInstanceState → PoolExec Unit
unfolding update_instance_state
finish_instance id new_state = update_instance_state id new_state none

abbrev same_task : TaskId → Option TaskId → Bool
same_task task none = false
same_task task (some t) = t == task

abbrev pub is_lease_of : TaskId → AgentInstance → Bool
is_lease_of task i = same_task task i.task_id && is_running_instance i.state

unfoldable pub finish_running_instances_for_task : TaskId → AgentInstanceState → PoolExec ℕ
finish_running_instances_for_task task new_state = do
  released ← look (λ p. length (select (is_lease_of task) p.agent_instances))
  with_instances (update (is_lease_of task) (moved new_state none))
  return released

-- `SELECT id FROM tasks WHERE state = 'running'`.
abbrev pub has_running_task : List Task → Option TaskId → Bool
has_running_task tasks none = false
has_running_task tasks (some t) =
    any (λ task. task.id == t && task_state_eq task.state TaskState.running) tasks

abbrev pub is_stale : List Task → AgentInstance → Bool
is_stale tasks i = is_running_instance i.state && not (has_running_task tasks i.task_id)

unfoldable pub release_stale_running_instances : AgentInstanceState → PoolExec ℕ
release_stale_running_instances new_state = do
  tasks ← look (λ p. p.world.db.tasks)
  released ← look (λ p. length (select (is_stale tasks) p.agent_instances))
  with_instances (update (is_stale tasks) (moved new_state none))
  return released

abbrev pub leased : ProjectId → AgentTypeId → TaskId → ℕ → AgentInstance
leased project_id type_id task_id id = record {
  id = id;
  project_id = project_id;
  agent_type_id = type_id;
  task_id = some task_id;
  state = AgentInstanceState.running;
}

unfoldable pub lease_in : ProjectId → AgentTypeId → TaskId → PoolExec AgentInstance
unfolding get_agent_type count_running_instances insert_instance generate_token
lease_in project_id type_id task_id = do
  agent_type ← get_agent_type project_id type_id
  require (is_active_type agent_type.state) Error.invalid_agent_type_transition
  running ← look (count_running_instances type_id)
  require (ltb running agent_type.max_concurrent_instances) Error.concurrency_limit_exceeded
  id ← in_world generate_token
  insert_instance (leased project_id type_id task_id id)
  return (leased project_id type_id task_id id)

unfoldable pub lease_instance_for_task : ProjectId → AgentTypeId → TaskId → PoolExec AgentInstance
unfolding lease_in
lease_instance_for_task project_id type_id task_id =
    atomically (lease_in project_id type_id task_id)
