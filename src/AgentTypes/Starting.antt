-- ===== src/AgentTypes/Starting.antt =====
-- The operations of src/zero/app/agent_type_service.py and of its repository that insert an instance
-- or set one running keep the limits of the types.
use zero_agent_dev_telegram.Common.{
  ◌≡◌, refl, arith, ℕ, suc, ◌≤◌, ◌<◌, Bool, true, false, not, ◌&&◌, Option, some, none, [], ◌∷◌,
  ◌++◌, ◌==◌, ltb, any, first, update, ltb→lt, subst,
}
use zero_agent_dev_telegram.Domain.Identity.{ProjectId}
use zero_agent_dev_telegram.Domain.Authorization.{Permission}
use zero_agent_dev_telegram.Domain.Execution.{TaskId}
use zero_agent_dev_telegram.Domain.AgentTypes.{
  AgentTypeId, AgentInstanceId, AgentInstanceState, AgentType, AgentInstance, is_active_type,
  is_idle,
}
use zero_agent_dev_telegram.Domain.Errors.{Error}
use zero_agent_dev_telegram.Exec.{generate_token}
use zero_agent_dev_telegram.Authorization.{require_permission}
use zero_agent_dev_telegram.AgentTypes.Store.{
  Pool, with_instances, is_type, is_instance, moved, get_agent_type, get_instance,
  count_running_instances, insert_instance, update_instance_state, leased, lease_in,
  lease_instance_for_task,
}
use zero_agent_dev_telegram.AgentTypes.Instances.{InstanceCall, created, create_instance, assign_in}
use zero_agent_dev_telegram.AgentTypes.Rows.{
  running_of, one_more, append-running_of, append-running_of_idle, start-running_of,
  update-has_distinct_ids, append-has_distinct_ids,
}
use zero_agent_dev_telegram.AgentTypes.Limits.{IsWithin, fewer-IsWithin, more-IsWithin}
use zero_agent_dev_telegram.AgentTypes.Kept.{
  in_any_world, require_then, atomically-IsWithin, or_fail_then, in_world_then, return_after,
}

abbrev asked : ProjectId → AgentTypeId → AgentType → Bool
asked project_id type_id a = is_type type_id a && a.project_id == project_id

is_free : (b : Bool) → not b ≡ true → b ≡ false
is_free true h = absurd (cc)
is_free false h = refl

-- An insert under a free id.
insert_instance-IsWithin :
    (i : AgentInstance) (p : Pool)
    → IsWithin p
    → (any (is_instance i.id) p.agent_instances ≡ false
        → IsWithin (record p { agent_instances = p.agent_instances ++ i ∷ [] }))
    → IsWithin (insert_instance i p).1
unfolding insert_instance
insert_instance-IsWithin i p h k =
    require_then (not (any (is_instance i.id) p.agent_instances)) Error.integrity_error
      (with_instances (λ rows. rows ++ i ∷ [])) p h
      (λ free. k (is_free (any (is_instance i.id) p.agent_instances) free))

-- An insert of a running row, of a type with room.
leased-IsWithin :
    (project_id : ProjectId) (type_id : AgentTypeId) (task_id : TaskId) (id : ℕ) (a : AgentType)
    (p : Pool)
    → IsWithin p
    → first (asked project_id type_id) p.agent_types ≡ some a
    → count_running_instances type_id p < a.max_concurrent_instances
    → IsWithin (insert_instance (leased project_id type_id task_id id) p).1
unfolding count_running_instances
leased-IsWithin project_id type_id task_id id a p h found room =
    let row = leased project_id type_id task_id id in
    insert_instance-IsWithin row p h (λ free.
      more-IsWithin p (record p { agent_instances = p.agent_instances ++ row ∷ [] }) a type_id
        project_id refl (append-has_distinct_ids p.agent_instances row h.keyed free)
        (λ t. append-running_of t p.agent_instances row) found room h)

lease_in-IsWithin :
    (project_id : ProjectId) (type_id : AgentTypeId) (task_id : TaskId) (p : Pool)
    → IsWithin p
    → IsWithin (lease_in project_id type_id task_id p).1
unfolding lease_in get_agent_type generate_token
lease_in-IsWithin project_id type_id task_id p h =
    or_fail_then Error.agent_type_not_found (first (asked project_id type_id) p.agent_types) _ p h
      (λ a found.
        require_then (is_active_type a.state) Error.invalid_agent_type_transition _ p h (λ active.
          require_then (ltb (count_running_instances type_id p) a.max_concurrent_instances)
            Error.concurrency_limit_exceeded _ p h
            (λ room.
              let id = p.world.next_token in
              let drawn = record p.world { next_token = suc id } in
              return_after (leased project_id type_id task_id id)
                (insert_instance (leased project_id type_id task_id id)
                  (record p { world = drawn }))
                (leased-IsWithin project_id type_id task_id id a (record p { world = drawn })
                  (in_any_world p drawn h) found
                  (ltb→lt (count_running_instances type_id p) a.max_concurrent_instances room)))))

pub lease-IsWithin :
    (project_id : ProjectId) (type_id : AgentTypeId) (task_id : TaskId) (p : Pool)
    → IsWithin p
    → IsWithin (lease_instance_for_task project_id type_id task_id p).1
unfolding lease_instance_for_task
lease-IsWithin project_id type_id task_id p h =
    atomically-IsWithin (lease_in project_id type_id task_id) p h
      (lease_in-IsWithin project_id type_id task_id p h)

-- An idle row more.
created-IsWithin :
    (project_id : ProjectId) (type_id : AgentTypeId) (id : AgentInstanceId) (p : Pool)
    → IsWithin p
    → IsWithin (insert_instance (created project_id type_id id) p).1
created-IsWithin project_id type_id id p h =
    let row = created project_id type_id id in
    insert_instance-IsWithin row p h (λ free.
      fewer-IsWithin p (record p { agent_instances = p.agent_instances ++ row ∷ [] }) refl
        (append-has_distinct_ids p.agent_instances row h.keyed free)
        (λ t. append-running_of_idle t p.agent_instances row refl) h)

pub create_instance-IsWithin :
    (c : InstanceCall) (type_id : AgentTypeId) (p : Pool)
    → IsWithin p
    → IsWithin (create_instance c type_id p).1
unfolding create_instance get_agent_type generate_token
create_instance-IsWithin c type_id p h =
    in_world_then (require_permission c.actor_id c.project_id Permission.agent_manage c.source) _ p
      h
      (λ d v.
        let q : Pool = record p { world = v } in
        let k = in_any_world p v h in
        or_fail_then Error.agent_type_not_found (first (asked c.project_id type_id) p.agent_types) _
          q k
          (λ a found.
            require_then (is_active_type a.state) Error.invalid_agent_type_transition _ q k
              (λ active.
                let id = v.next_token in
                let drawn = record v { next_token = suc id } in
                return_after (created c.project_id type_id id)
                  (insert_instance (created c.project_id type_id id) (record p { world = drawn }))
                  (created-IsWithin c.project_id type_id id (record p { world = drawn })
                    (in_any_world p drawn h)))))

update_state-IsWithin :
    (id : AgentInstanceId) (new_state : AgentInstanceState) (task : Option TaskId) (p : Pool)
    → IsWithin p
    → IsWithin (record p {
      agent_instances = update (is_instance id) (moved new_state task) p.agent_instances;
    })
    → IsWithin (update_instance_state id new_state task p).1
unfolding update_instance_state
update_state-IsWithin id new_state task p h k =
    require_then (any (is_instance id) p.agent_instances) Error.agent_instance_not_found
      (with_instances (update (is_instance id) (moved new_state task))) p h (λ hit. k)

-- What an assignment read of the instance before its transaction is still its type.
abbrev pub is_row_of : AgentInstance → Option AgentInstance → Bool
is_row_of i none = true
is_row_of i (some row) = row.agent_type_id == i.agent_type_id

same_type :
    (i row : AgentInstance) (o : Option AgentInstance)
    → is_row_of i o ≡ true
    → o ≡ some row
    → row.agent_type_id ≡ i.agent_type_id
same_type i row o h e = ground arith

pub assign_in-IsWithin :
    (project_id : ProjectId) (instance : AgentInstance) (task_id : TaskId) (p : Pool)
    → is_row_of instance (first (is_instance instance.id) p.agent_instances) ≡ true
    → IsWithin p
    → IsWithin (assign_in project_id instance task_id p).1
unfolding assign_in get_agent_type get_instance count_running_instances
assign_in-IsWithin project_id instance task_id p same h =
    let rows = p.agent_instances in
    let running = AgentInstanceState.running in
    let type_id = instance.agent_type_id in
    or_fail_then Error.agent_type_not_found (first (asked project_id type_id) p.agent_types) _ p h
      (λ a found.
        or_fail_then Error.agent_instance_not_found (first (is_instance instance.id) rows) _ p h
          (λ row here.
            require_then (is_idle row.state) Error.invalid_agent_type_transition _ p h (λ idle.
              require_then (ltb (count_running_instances type_id p) a.max_concurrent_instances)
                Error.concurrency_limit_exceeded _ p h
                (λ room. update_state-IsWithin instance.id running (some task_id) p h (
                  more-IsWithin p
                    (record p {
                      agent_instances =
                          update (is_instance instance.id) (moved running (some task_id)) rows;
                    })
                    a type_id project_id refl
                    (update-has_distinct_ids (is_instance instance.id)
                      (moved running (some task_id)) (λ i. refl) rows h.keyed)
                    (λ t.
                      subst
                        (λ (k : AgentTypeId).
                          running_of t
                            (update (is_instance instance.id) (moved running (some task_id)) rows)
                          ≤ one_more k t (running_of t rows))
                        (same_type instance row (first (is_instance instance.id) rows) same here)
                        (start-running_of t instance.id (some task_id) rows row h.keyed here))
                    found
                    (ltb→lt (count_running_instances type_id p) a.max_concurrent_instances room)
                    h)))))
