-- ===== src/AgentTypes/Steps.antt =====
-- Histories of the instances of src/zero/app/agent_type_service.py, of its repository and of those that
-- call them: src/zero/app/agent_runtime.py, src/zero/app/worker_service.py and
-- src/zero/app/background_workers.py.
use zero_agent_dev_telegram.Common.{
  ◌≡◌, refl, arith, Bool, true, false, Option, some, none, List, first, first_holds, subst, sym,
}
use zero_agent_dev_telegram.Domain.Identity.{ProjectId}
use zero_agent_dev_telegram.Domain.Authorization.{Permission}
use zero_agent_dev_telegram.Domain.Execution.{TaskId}
use zero_agent_dev_telegram.Domain.AgentTypes.{
  AgentTypeId, AgentInstanceId, AgentInstanceState, AgentInstance, is_running_instance, is_idle,
}
use zero_agent_dev_telegram.Domain.Errors.{Error}
use zero_agent_dev_telegram.Authorization.{require_permission}
use zero_agent_dev_telegram.AgentTypes.Store.{
  Pool, is_instance, atomically, get_instance, update_instance_state, finish_instance,
  finish_running_instances_for_task, release_stale_running_instances, lease_instance_for_task,
}
use zero_agent_dev_telegram.AgentTypes.Instances.{
  InstanceCall, outcome, create_instance, assign_in, assign_instance_to_task, complete_instance,
}
use zero_agent_dev_telegram.AgentTypes.Limits.{IsWithin}
use zero_agent_dev_telegram.AgentTypes.Kept.{
  in_any_world, require_then, atomically-IsWithin, or_fail_then, in_world_then, last_read,
  get_instance-reads, finish_instance-IsWithin, finish_for_task-IsWithin, release_stale-IsWithin,
}
use zero_agent_dev_telegram.AgentTypes.Starting.{
  is_row_of, lease-IsWithin, create_instance-IsWithin, assign_in-IsWithin,
}

row-is_row_of : (i : AgentInstance) → is_row_of i (some i) ≡ true
row-is_row_of i = ground arith

found-is_row_of :
    (id : AgentInstanceId) (rows : List AgentInstance) (i : AgentInstance)
    → first (is_instance id) rows ≡ some i
    → is_row_of i (first (is_instance i.id) rows) ≡ true
found-is_row_of id rows i found =
    let same : i.id ≡ id = ground (arith, first_holds (is_instance id) rows found) in
    subst (λ (n : AgentInstanceId). is_row_of i (first (is_instance n) rows) ≡ true) (sym same)
      (subst (λ (o : Option AgentInstance). is_row_of i o ≡ true) (sym found) (row-is_row_of i))

assign-IsWithin :
    (c : InstanceCall) (id : AgentInstanceId) (task_id : TaskId) (p : Pool)
    → IsWithin p
    → IsWithin (assign_instance_to_task c id task_id p).1
unfolding assign_instance_to_task get_instance
assign-IsWithin c id task_id p h =
    in_world_then (require_permission c.actor_id c.project_id Permission.execution_start c.source) _
      p h
      (λ d v.
        let q : Pool = record p { world = v } in
        let k = in_any_world p v h in
        or_fail_then Error.agent_instance_not_found (first (is_instance id) p.agent_instances) _ q k
          (λ i found.
            require_then (is_idle i.state) Error.invalid_agent_type_transition _ q k (λ idle.
              last_read (atomically (assign_in c.project_id i task_id) q) (λ _. get_instance id)
                (λ _. get_instance-reads id)
                (atomically-IsWithin (assign_in c.project_id i task_id) q k (
                  assign_in-IsWithin c.project_id i task_id q
                    (found-is_row_of id p.agent_instances i found) k)))))

ended : (succeeded : Bool) → is_running_instance (outcome succeeded) ≡ false
ended true = refl
ended false = refl

complete-IsWithin :
    (c : InstanceCall) (id : AgentInstanceId) (succeeded : Bool) (p : Pool)
    → IsWithin p
    → IsWithin (complete_instance c id succeeded p).1
unfolding complete_instance get_instance finish_instance
complete-IsWithin c id succeeded p h =
    or_fail_then Error.agent_instance_not_found (first (is_instance id) p.agent_instances) _ p h
      (λ i found.
        require_then (is_running_instance i.state) Error.invalid_agent_type_transition _ p h
          (λ runs.
            last_read (update_instance_state id (outcome succeeded) none p) (λ _. get_instance id)
              (λ _. get_instance-reads id)
              (finish_instance-IsWithin id (outcome succeeded) p (ended succeeded) h)))

-- One call that changes instances, whether it returns or raises. `assign_late` is the transaction of
-- an assignment that read its instance earlier. What the callers finish with is not `running`.
pub data PoolStep (p : Pool) : Pool → Type 0 where
  create : (c : InstanceCall) (type_id : AgentTypeId) → PoolStep p (create_instance c type_id p).1
  assign :
      (c : InstanceCall) (id : AgentInstanceId) (task_id : TaskId)
      → PoolStep p (assign_instance_to_task c id task_id p).1
  assign_late :
      (project_id : ProjectId) (i : AgentInstance) (task_id : TaskId)
      → is_row_of i (first (is_instance i.id) p.agent_instances) ≡ true
      → PoolStep p (assign_in project_id i task_id p).1
  complete :
      (c : InstanceCall) (id : AgentInstanceId) (succeeded : Bool)
      → PoolStep p (complete_instance c id succeeded p).1
  lease :
      (project_id : ProjectId) (type_id : AgentTypeId) (task_id : TaskId)
      → PoolStep p (lease_instance_for_task project_id type_id task_id p).1
  finish :
      (id : AgentInstanceId) (new_state : AgentInstanceState)
      → is_running_instance new_state ≡ false
      → PoolStep p (finish_instance id new_state p).1
  finish_for_task :
      (task_id : TaskId) (new_state : AgentInstanceState)
      → is_running_instance new_state ≡ false
      → PoolStep p (finish_running_instances_for_task task_id new_state p).1
  release_stale :
      (new_state : AgentInstanceState)
      → is_running_instance new_state ≡ false
      → PoolStep p (release_stale_running_instances new_state p).1
  elsewhere :
      {p' : Pool}
      → p'.agent_types ≡ p.agent_types
      → p'.agent_instances ≡ p.agent_instances
      → PoolStep p p'

pub data PoolReach (p : Pool) : Pool → Type 0 where
  start : PoolReach p p
  after : {q r : Pool} → PoolReach p q → PoolStep q r → PoolReach p r

elsewhere-IsWithin :
    (p p' : Pool)
    → p'.agent_types ≡ p.agent_types
    → p'.agent_instances ≡ p.agent_instances
    → IsWithin p
    → IsWithin p'
elsewhere-IsWithin p p' types rows h = record {
  keyed = rw rows h.keyed;
  limited = λ t. rw (types, rows) (h.limited t);
}

PoolStep-IsWithin : {p p' : Pool} → PoolStep p p' → IsWithin p → IsWithin p'
PoolStep-IsWithin {p} (create c type_id) h = create_instance-IsWithin c type_id p h
PoolStep-IsWithin {p} (assign c id task_id) h = assign-IsWithin c id task_id p h
PoolStep-IsWithin {p} (assign_late project_id i task_id same) h =
    assign_in-IsWithin project_id i task_id p same h
PoolStep-IsWithin {p} (complete c id succeeded) h = complete-IsWithin c id succeeded p h
PoolStep-IsWithin {p} (lease project_id type_id task_id) h =
    lease-IsWithin project_id type_id task_id p h
PoolStep-IsWithin {p} (finish id new_state over) h = finish_instance-IsWithin id new_state p over h
PoolStep-IsWithin {p} (finish_for_task task_id new_state over) h =
    finish_for_task-IsWithin task_id new_state p over h
PoolStep-IsWithin {p} (release_stale new_state over) h = release_stale-IsWithin new_state p over h
PoolStep-IsWithin {p} {p'} (elsewhere types rows) h = elsewhere-IsWithin p p' types rows h

-- However creations, assignments, completions, leases, releases and anything that leaves the rows of
-- types and instances alone interleave, if each type with running instances has a row whose limit
-- they do not exceed at the start, where each id names one instance, then both still hold. Releases set
-- a state other than `running`, and no row of a type is edited on the way.
pub PoolReach-IsWithin : {p p' : Pool} → IsWithin p → PoolReach p p' → IsWithin p'
PoolReach-IsWithin h start = h
PoolReach-IsWithin h (after r s) = PoolStep-IsWithin s (PoolReach-IsWithin h r)
