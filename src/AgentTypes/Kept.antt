-- ===== src/AgentTypes/Kept.antt =====
-- Each write of src/zero/app/agent_type_service.py and of its repository keeps the limits of the types.
use zero_agent_dev_telegram.Common.{
  ◌≡◌, refl, sym, subst, Bool, true, false, Option, some, none, any, first, update,
}
use zero_agent_dev_telegram.Domain.Execution.{TaskId}
use zero_agent_dev_telegram.Domain.AgentTypes.{
  AgentInstanceId, AgentInstanceState, AgentInstance, is_running_instance,
}
use zero_agent_dev_telegram.Domain.Errors.{Error}
use zero_agent_dev_telegram.Database.{World}
use zero_agent_dev_telegram.Exec.{Result, ok, err, Exec}
use zero_agent_dev_telegram.AgentTypes.Store.{
  Pool, PoolExec, return, or_fail, in_world, atomically, ◌>>=◌, ◌>>◌, require, is_instance, moved,
  is_lease_of, is_stale, get_instance, update_instance_state, finish_instance,
  finish_running_instances_for_task, release_stale_running_instances,
}
use zero_agent_dev_telegram.AgentTypes.Limits.{IsWithin, update-IsWithin}

-- The other tables play no part.
pub in_any_world : (p : Pool) (v : World) → IsWithin p → IsWithin (record p { world = v })
in_any_world p v h = record { keyed = h.keyed; limited = h.limited }

module _ {A : Type 0} where
  pub require_then :
      (b : Bool) (e : Error) (m : PoolExec A) (p : Pool)
      → IsWithin p
      → (b ≡ true → IsWithin (m p).1)
      → IsWithin ((require b e >> m) p).1
  require_then true e m p h k = k refl
  require_then false e m p h k = h

  pub atomically-IsWithin :
      (m : PoolExec A) (p : Pool) → IsWithin p → IsWithin (m p).1 → IsWithin (atomically m p).1
  atomically-IsWithin m p h k = settled (m p) k
    where
      settled : (x : Result A × Pool) → IsWithin x.1 → IsWithin (atomically (λ _. x) p).1
      settled (ok a, q) k = k
      settled (err e, q) k = record { keyed = h.keyed; limited = h.limited }

module _ {A B : Type 0} where
  pub or_fail_then :
      (e : Error) (o : Option A) (f : A → PoolExec B) (p : Pool)
      → IsWithin p
      → ((a : A) → o ≡ some a → IsWithin (f a p).1)
      → IsWithin ((or_fail e o >>= f) p).1
  or_fail_then e none f p h k = h
  or_fail_then e (some a) f p h k = k a refl

  pub in_world_then :
      (m : Exec A) (f : A → PoolExec B) (p : Pool)
      → IsWithin p
      → ((a : A) (v : World) → IsWithin (f a (record p { world = v })).1)
      → IsWithin ((in_world m >>= f) p).1
  in_world_then m f p h k = ran (m p.world)
    where
      ran : (x : Result A × World) → IsWithin ((in_world (λ _. x) >>= f) p).1
      ran (ok a, v) = k a v
      ran (err e, v) = in_any_world p v h

  -- A last step that writes nothing.
  pub return_after :
      (b : B) (x : Result A × Pool) → IsWithin x.1 → IsWithin (((λ _. x) >>= (λ _. return b)) x.1).1
  return_after b (ok a, q) h = h
  return_after b (err e, q) h = h

  pub last_read :
      (x : Result A × Pool) (f : A → Pool → Result B × Pool)
      → ((a : A) (q : Pool) → (f a q).1 ≡ q)
      → IsWithin x.1
      → IsWithin (((λ _. x) >>= f) x.1).1
  last_read (ok a, q) f reads h = subst IsWithin (sym (reads a q)) h
  last_read (err e, q) f reads h = h

pub get_instance-reads : (id : AgentInstanceId) (p : Pool) → (get_instance id p).1 ≡ p
unfolding get_instance
get_instance-reads id p = found (first (is_instance id) p.agent_instances)
  where
    found : (o : Option AgentInstance) → (or_fail Error.agent_instance_not_found o p).1 ≡ p
    found none = refl
    found (some i) = refl

pub finish_instance-IsWithin :
    (id : AgentInstanceId) (new_state : AgentInstanceState) (p : Pool)
    → is_running_instance new_state ≡ false
    → IsWithin p
    → IsWithin (finish_instance id new_state p).1
unfolding finish_instance update_instance_state
finish_instance-IsWithin id new_state p ended h =
    require_then (any (is_instance id) p.agent_instances) Error.agent_instance_not_found
      (λ q. (
        ok tt,
        record q {
          agent_instances = update (is_instance id) (moved new_state none) q.agent_instances;
        },
      ))
      p h (λ _. update-IsWithin p (is_instance id) new_state ended h)

pub finish_for_task-IsWithin :
    (task : TaskId) (new_state : AgentInstanceState) (p : Pool)
    → is_running_instance new_state ≡ false
    → IsWithin p
    → IsWithin (finish_running_instances_for_task task new_state p).1
unfolding finish_running_instances_for_task
finish_for_task-IsWithin task new_state p ended h =
    update-IsWithin p (is_lease_of task) new_state ended h

pub release_stale-IsWithin :
    (new_state : AgentInstanceState) (p : Pool)
    → is_running_instance new_state ≡ false
    → IsWithin p
    → IsWithin (release_stale_running_instances new_state p).1
unfolding release_stale_running_instances
release_stale-IsWithin new_state p ended h =
    update-IsWithin p (is_stale p.world.db.tasks) new_state ended h
