-- ===== src/WorkerService/Ordered/Recomputed.antt =====
-- That `_recompute_readiness` of src/zero/app/worker_service.py keeps the order of work.
use zero_agent_dev_telegram.Common.{
  ◌⊎◌, ◌≡◌, refl, arith, Bool, true, false, not, Option, none, some, List, [], ◌∷◌, String, any,
  all, is_empty, if◌then◌else◌, ◌∙◌, inl, inr, subst,
}
use zero_agent_dev_telegram.Domain.Execution.{
  TaskId, TaskState, Task, TaskDependency, is_blocking_task_state,
}
use zero_agent_dev_telegram.Database.{Db, World}
use zero_agent_dev_telegram.Exec.{Exec, ok, ◌>>=◌, >>=-eq-ok, pure}
use zero_agent_dev_telegram.Repository.Execution.{
  get_task, list_dependencies_for_task, update_task_state,
}
use zero_agent_dev_telegram.WorkerService.Loops.{for_each, collect}
use zero_agent_dev_telegram.WorkerService.Readiness.{
  is_completed, is_dependency_block, state_of_dependency, dependency_states, revive, promote,
  recompute_task, recompute_in,
}
use zero_agent_dev_telegram.WorkerService.Ordered.{
  state_at, is_done, was_let_through, is_met, dependencies_completed, IsProgress,
}
use zero_agent_dev_telegram.WorkerService.Ordered.Progress.{
  all-cong, IsProgress-refl, IsProgress-trans,
}
use zero_agent_dev_telegram.WorkerService.Ordered.Rows.{update_task_state-IsProgress}

-- The states that the loop over the edges reads are those of the rows.
abbrev collect_rest : TaskDependency → List TaskDependency → TaskState → Exec (List TaskState)
unfolding collect
collect_rest d deps s = do ys ← collect state_of_dependency deps; pure (s ∷ ys)

read-state :
    (d : TaskDependency) (w w' : World) (s : TaskState)
    → state_of_dependency d w ≡ (ok s, w')
    → (w' ≡ w) × (is_completed s ≡ is_met w.db d)
unfolding get_task state_at
read-state d w w' s e = ground arith

collect-states :
    (deps : List TaskDependency) (w w' : World) (states : List TaskState)
    → collect state_of_dependency deps w ≡ (ok states, w')
    → (w' ≡ w) × (all is_completed states ≡ all (is_met w.db) deps)
unfolding collect get_task state_at
collect-states [] w w' states e = ground arith
collect-states (d ∷ deps) w w' states e =
    let (s, v, read, e1) = >>=-eq-ok (state_of_dependency d) (collect_rest d deps) w w' e in
    let (rest, u, more, e2) =
      >>=-eq-ok (collect state_of_dependency deps) (λ ys. pure (s ∷ ys)) v w' e1 in
    let (same_v, head) = read-state d w v s read in
    let (same_u, tail) = collect-states deps v u rest more in
    let tail' : all is_completed rest ≡ all (is_met w.db) deps =
      subst (λ (x : World). all is_completed rest ≡ all (is_met x.db) deps) same_v tail in
    (ground arith, ground (arith, head, tail'))

pub dependency_states-reads :
    (k : TaskId) (w w' : World) (states : List TaskState)
    → dependency_states k w ≡ (ok states, w')
    → (w' ≡ w) × (all is_completed states ≡ dependencies_completed k w.db)
unfolding dependency_states dependencies_completed
dependency_states-reads k w w' states e =
    collect-states (list_dependencies_for_task k w.db) w w' states e

-- The branches after the first.
abbrev revive_unmet : TaskId → List TaskState → Exec Unit
revive_unmet i states =
    if any is_blocking_task_state states
    then pure tt
    else update_task_state i TaskState.pending (some "") none

abbrev revive_some : TaskId → List TaskState → Exec Unit
revive_some i states =
    if all is_completed states
    then update_task_state i TaskState.ready (some "") none
    else revive_unmet i states

abbrev promote_unmet : TaskId → List TaskState → Exec Unit
promote_unmet i states =
    if any is_blocking_task_state states
    then update_task_state i TaskState.blocked (some "dependency failed/blocked/cancelled") none
    else pure tt

-- A branch that returns.
if-eq-ok :
    (b : Bool) (m n : Exec Unit) (w w' : World)
    → (if b then m else n) w ≡ (ok tt, w')
    → ((b ≡ true) × (m w ≡ (ok tt, w'))) ⊎ ((b ≡ false) × (n w ≡ (ok tt, w')))
if-eq-ok true m n w w' e = inl (refl, e)
if-eq-ok false m n w w' e = inr (refl, e)

nothing-IsProgress : (w w' : World) → pure tt w ≡ (ok tt, w') → IsProgress w.db w'.db
nothing-IsProgress w w' e = let same : w' ≡ w = ground arith in rw same (IsProgress-refl w.db)

module _ (i : TaskId) (states : List TaskState) (w w' : World)
    (not_done : is_done (state_at i w.db) ≡ false)
    (read : all is_completed states ≡ dependencies_completed i w.db) where
  made_ready :
      (reason : Option String)
      → all is_completed states ≡ true
      → update_task_state i TaskState.ready reason none w ≡ (ok tt, w')
      → IsProgress w.db w'.db
  made_ready reason met e =
      update_task_state-IsProgress i TaskState.ready reason none w w' e refl not_done
        (λ _. ground (arith, read))

  -- A task that waits: it goes on waiting.
  made_wait :
      (s : TaskState) (reason : Option String)
      → is_completed s ≡ false
      → was_let_through s ≡ false
      → update_task_state i s reason none w ≡ (ok tt, w')
      → IsProgress w.db w'.db
  made_wait s reason n l e =
      update_task_state-IsProgress i s reason none w w' e n not_done (λ h. absurd (ground arith))

  revive-IsProgress : revive i states w ≡ (ok tt, w') → IsProgress w.db w'.db
  unfolding revive
  revive-IsProgress e = elim (if-eq-ok (is_empty states) (pure tt) (revive_some i states) w w' e) [
    | inl (_, stays) ↦ nothing-IsProgress w w' stays
    | inr (_, e1) ↦
        elim (if-eq-ok (all is_completed states)
          (update_task_state i TaskState.ready (some "") none) (revive_unmet i states) w w' e1) [
            | inl (met, e2) ↦ made_ready (some "") met e2
            | inr (_, e2) ↦
                elim (if-eq-ok (any is_blocking_task_state states) (pure tt)
                  (update_task_state i TaskState.pending (some "") none) w w' e2) [
                    | inl (_, stays) ↦ nothing-IsProgress w w' stays
                    | inr (_, e3) ↦ made_wait TaskState.pending (some "") refl refl e3
                  ]
          ]
  ]

  promote-IsProgress : promote i states w ≡ (ok tt, w') → IsProgress w.db w'.db
  unfolding promote
  promote-IsProgress e =
      elim (if-eq-ok (all is_completed states) (update_task_state i TaskState.ready none none)
        (promote_unmet i states) w w' e) [
          | inl (met, e1) ↦ made_ready none met e1
          | inr (_, e1) ↦
              elim (if-eq-ok (any is_blocking_task_state states)
                (update_task_state i TaskState.blocked (some "dependency failed/blocked/cancelled")
                  none)
                (pure tt) w w' e1) [
                  | inl (_, e2) ↦
                      made_wait TaskState.blocked (some "dependency failed/blocked/cancelled") refl
                        refl e2
                  | inr (_, stays) ↦ nothing-IsProgress w w' stays
                ]
        ]

recompute_in-IsProgress :
    (s : TaskState) (t : Task) (w w' : World)
    → is_done (state_at t.id w.db) ≡ is_completed s
    → recompute_in s t w ≡ (ok tt, w')
    → IsProgress w.db w'.db
recompute_in-IsProgress TaskState.blocked t w w' agrees e =
    elim (if-eq-ok (is_dependency_block t.blocker_reason)
      (do states ← dependency_states t.id; revive t.id states) (pure tt) w w' e) [
        | inl (_, e1) ↦
            let (states, v, read, e2) = >>=-eq-ok (dependency_states t.id) (revive t.id) w w' e1 in
            let (same, met) = dependency_states-reads t.id w v states read in
            revive-IsProgress t.id states w w' agrees met
              (subst (λ (x : World). revive t.id states x ≡ (ok tt, w')) same e2)
        | inr (_, stays) ↦ nothing-IsProgress w w' stays
      ]
recompute_in-IsProgress TaskState.pending t w w' agrees e =
    let (states, v, read, e1) = >>=-eq-ok (dependency_states t.id) (promote t.id) w w' e in
    let (same, met) = dependency_states-reads t.id w v states read in
    promote-IsProgress t.id states w w' agrees met
      (subst (λ (x : World). promote t.id states x ≡ (ok tt, w')) same e1)
recompute_in-IsProgress s t w w' agrees e = nothing-IsProgress w w' e

-- The row says of a task what its id says.
abbrev pub agrees_with : Db → Task → Bool
agrees_with db t =
    if is_done (state_at t.id db) then is_completed t.state else not (is_completed t.state)

agrees_with-eq :
    (db : Db) (t : Task)
    → agrees_with db t ≡ true
    → is_done (state_at t.id db) ≡ is_completed t.state
agrees_with-eq db t h = ground arith

agrees_with-progress :
    (before after : Db) (t : Task)
    → IsProgress before after
    → agrees_with after t ≡ agrees_with before t
agrees_with-progress before after t p = rw (p.done t.id) refl

pub for_each-IsProgress :
    (ts : List Task) (w w' : World)
    → all (agrees_with w.db) ts ≡ true
    → for_each recompute_task ts w ≡ (ok tt, w')
    → IsProgress w.db w'.db
unfolding for_each recompute_task
for_each-IsProgress [] w w' agree e = nothing-IsProgress w w' e
for_each-IsProgress (t ∷ ts) w w' agree e =
    let (_, v, one, rest) = >>=-eq-ok (recompute_task t) (λ _. for_each recompute_task ts) w w' e in
    let p : IsProgress w.db v.db =
      recompute_in-IsProgress t.state t w v (agrees_with-eq w.db t (ground arith)) one in
    IsProgress-trans w.db v.db w'.db p (
      for_each-IsProgress ts v w'
        (all-cong (agrees_with v.db) (agrees_with w.db) ts (λ u. agrees_with-progress w.db v.db u p)
          ∙ ground arith)
        rest)
