-- ===== src/WorkerService/Ordered/Rows.antt =====
-- How single writes of src/zero/persistence/repositories/execution_repository.py change the states
-- of a task graph.
use zero_agent_dev_telegram.Common.{
  ◌≡◌, refl, arith, ap, Bool, true, false, ◌&&◌, ◌||◌, Option, none, some, List, [], ◌∷◌, ◌==◌,
  String, first, update, changed, first-update, first_holds, ==→eq, if◌then◌else◌, inl, inr,
  Bool-cases, any-update, subst, ◌∙◌,
}
use zero_agent_dev_telegram.Domain.Execution.{TaskId, TaskState, Evidence, Task}
use zero_agent_dev_telegram.Database.{World}
use zero_agent_dev_telegram.Exec.{ok}
use zero_agent_dev_telegram.Repository.Execution.{find_task, update_task_state, task_with}
use zero_agent_dev_telegram.Repository.Plan.{in_scope}
use zero_agent_dev_telegram.WorkerService.Readiness.{is_completed}
use zero_agent_dev_telegram.WorkerService.Ordered.{
  state_of_row, state_at, is_done, is_engaged, was_let_through, dependencies_completed, IsProgress,
  IsGrowth, has_task_keys,
}

-- What one UPDATE does to the state that is found under an id.
abbrev pub state_after : TaskId → TaskId → TaskState → Option TaskState → Option TaskState
state_after k i s none = none
state_after k i s (some x) = some (if k == i then s else x)

pub has_task_keys-update :
    (q : Task → Bool) (f : Task → Task)
    → ((x : Task) → (f x).id ≡ x.id)
    → (xs : List Task) → has_task_keys (update q f xs) ≡ has_task_keys xs
unfolding has_task_keys update
has_task_keys-update q f keeps [] = refl
has_task_keys-update q f keeps (x ∷ xs) =
    rw
      (
        head_id x,
        any-update (λ u. u.id == x.id) q f (λ y. ap (λ n. n == x.id) (keeps y)) xs,
        has_task_keys-update q f keeps xs,
      )
      refl
  where
    head_id : (x : Task) → (if q x then f x else x).id ≡ x.id
    head_id x = ground (arith, keeps x)

done_after :
    (k i : TaskId) (s : TaskState) (o : Option TaskState)
    → is_completed s ≡ false
    → is_done o ≡ false
    → is_done (state_after k i s o) ≡ false
done_after k i s none n d = refl
done_after k i s (some x) n d = ground arith

state_elsewhere :
    (k i : TaskId) (s : TaskState) (o : Option TaskState)
    → (k == i) ≡ false
    → state_after k i s o ≡ o
state_elsewhere k i s none other = refl
state_elsewhere k i s (some x) other = rw other refl

engaged_after :
    (k i : TaskId) (s : TaskState) (o : Option TaskState)
    → (k == i) ≡ true
    → is_engaged (state_after k i s o) ≡ true
    → was_let_through s ≡ true
engaged_after k i s none same h = absurd (cc)
engaged_after k i s (some x) same h = ground arith

module _ (i : TaskId) (s : TaskState) (reason : Option String) (evidence : Option (List Evidence))
    (w w' : World) where
  pub update_task_state-tasks :
      update_task_state i s reason evidence w ≡ (ok tt, w')
      → w' ≡ record w {
        db = record w.db {
          tasks = update (λ t. t.id == i) (task_with w.now s reason evidence) w.db.tasks;
        };
      }
  unfolding update_task_state
  update_task_state-tasks e = ground arith

  state_of_changed :
      (k : TaskId) (o : Option Task)
      → ((a : Task) → o ≡ some a → (a.id == k && in_scope none a.project_id) ≡ true)
      → state_of_row (changed (λ t. t.id == i) (task_with w.now s reason evidence) o)
        ≡ state_after k i s (state_of_row o)
  state_of_changed k none found = refl
  state_of_changed k (some t) found =
      rw (==→eq t.id k (ground (arith, found t refl))) (ground arith)

  pub update_task_state-state_at :
      update_task_state i s reason evidence w ≡ (ok tt, w')
      → (k : TaskId) → state_at k w'.db ≡ state_after k i s (state_at k w.db)
  unfolding state_at find_task
  update_task_state-state_at e k =
      let here : Task → Bool = λ t. t.id == k && in_scope none t.project_id in
      rw (update_task_state-tasks e) (
        rw
          (first-update here (λ t. t.id == i) (task_with w.now s reason evidence) (λ x. refl)
            w.db.tasks)
          (state_of_changed k (first here w.db.tasks) (λ a f. first_holds here w.db.tasks f)))

  pub update_task_state-keys :
      update_task_state i s reason evidence w ≡ (ok tt, w')
      → has_task_keys w.db.tasks ≡ true
      → has_task_keys w'.db.tasks ≡ true
  update_task_state-keys e h = rw (update_task_state-tasks e) (
      has_task_keys-update (λ t. t.id == i) (task_with w.now s reason evidence) (λ x. refl)
        w.db.tasks
      ∙ h)

  still_engaged :
      update_task_state i s reason evidence w ≡ (ok tt, w')
      → (k : TaskId) → (k == i) ≡ false
      → is_engaged (state_at k w'.db) ≡ true
      → is_engaged (state_at k w.db) ≡ true
  still_engaged e k other h =
      subst (λ o. is_engaged o ≡ true)
        (update_task_state-state_at e k ∙ state_elsewhere k i s (state_at k w.db) other) h

  -- A write of a state that is not `completed` to a task that is not, which lets the task through
  -- only after what it depends on.
  pub update_task_state-IsProgress :
      update_task_state i s reason evidence w ≡ (ok tt, w')
      → is_completed s ≡ false
      → is_done (state_at i w.db) ≡ false
      → (was_let_through s ≡ true
          → (is_engaged (state_at i w.db) || dependencies_completed i w.db) ≡ true)
      → IsProgress w.db w'.db
  update_task_state-IsProgress e not_completed not_done after = record {
    edges = rw (update_task_state-tasks e) refl;
    keys = update_task_state-keys e;
    done = λ k. rw (update_task_state-state_at e k) (elim (Bool-cases (k == i)) [
      | inl same ↦
          rw (==→eq k i same, not_done) (done_after i i s (state_at i w.db) not_completed not_done)
      | inr other ↦ rw (state_elsewhere k i s (state_at k w.db) other) refl
    ]);
    engaged = λ k h. elim (Bool-cases (k == i)) [
      | inl same ↦ rw (==→eq k i same) (
          after (
            engaged_after k i s (state_at k w.db) same
              (subst (λ o. is_engaged o ≡ true) (update_task_state-state_at e k) h)))
      | inr other ↦ rw (still_engaged e k other h) refl
    ];
  }

  -- Any write to a task that was let through and is not complete.
  pub update_task_state-IsGrowth :
      update_task_state i s reason evidence w ≡ (ok tt, w')
      → is_engaged (state_at i w.db) ≡ true
      → is_done (state_at i w.db) ≡ false
      → IsGrowth w.db w'.db
  update_task_state-IsGrowth e was not_done = record {
    edges = rw (update_task_state-tasks e) refl;
    keys = update_task_state-keys e;
    done = λ k h. elim (Bool-cases (k == i)) [
      | inl same ↦
          absurd (ground (arith, subst (λ n. is_done (state_at n w.db) ≡ true) (==→eq k i same) h))
      | inr other ↦
          rw (update_task_state-state_at e k, state_elsewhere k i s (state_at k w.db) other) h
    ];
    engaged = λ k h. elim (Bool-cases (k == i)) [
      | inl same ↦ rw (==→eq k i same, was) refl
      | inr other ↦ rw (still_engaged e k other h) refl
    ];
  }
