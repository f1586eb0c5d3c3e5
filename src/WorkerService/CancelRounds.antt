-- ===== src/WorkerService/CancelRounds.antt =====
-- One round of the loop of `cancel_execution` in src/zero/app/worker_service.py.
use zero_agent_dev_telegram.Common.{
  ◌≡◌, refl, sym, ◌||◌, arith, Bool, true, not, Option, none, some, List, [], ◌∷◌, ◌∙◌, ==-refl,
  subst, inl, inr, ◌⊎◌, Bool-cases,
}
use zero_agent_dev_telegram.Domain.Execution.{
  TaskId, TaskState, Task, TaskAttempt, is_terminal_task_state,
}
use zero_agent_dev_telegram.Database.{World}
use zero_agent_dev_telegram.Exec.{Exec, ok, query, ◌>>=◌, >>=-eq-ok}
use zero_agent_dev_telegram.Repository.Execution.{update_task_state}
use zero_agent_dev_telegram.Repository.Attempts.{update_attempt_state, list_attempts_for_task}
use zero_agent_dev_telegram.WorkerService.Loops.{for_each}
use zero_agent_dev_telegram.WorkerService.Operators.{cancel_attempt, cancel_in_graph}
use zero_agent_dev_telegram.WorkerService.Ordered.{state_at}
use zero_agent_dev_telegram.WorkerService.Ordered.Rows.{state_after, update_task_state-state_at}
use zero_agent_dev_telegram.WorkerService.Ordered.Others.{
  state_at-same, KeepsGraph, bind-KeepsGraph,
}

-- Completed or cancelled, if there is such a task.
abbrev pub is_finished : Option TaskState → Bool
is_finished none = true
is_finished (some s) = is_terminal_task_state s

cancel_attempt-KeepsGraph : (a : TaskAttempt) → KeepsGraph (cancel_attempt a)
unfolding cancel_attempt update_attempt_state
cancel_attempt-KeepsGraph a w w' u e = ground arith

cancel_attempts-KeepsGraph : (xs : List TaskAttempt) → KeepsGraph (for_each cancel_attempt xs)
unfolding for_each
cancel_attempts-KeepsGraph [] w w' u e = ground arith
cancel_attempts-KeepsGraph (a ∷ xs) w w' u e =
    bind-KeepsGraph (cancel_attempt a) (λ _. for_each cancel_attempt xs)
      (cancel_attempt-KeepsGraph a) (λ _. cancel_attempts-KeepsGraph xs) w w' u e

abbrev cancel_attempts_of : Task → Exec Unit
cancel_attempts_of task = do
  attempts ← query (list_attempts_for_task task.id)
  for_each cancel_attempt attempts

-- One round: the task's state is as it was, if that was terminal, or `cancelled`.
cancel_in_graph-state_at :
    (t : Task) (w w' : World)
    → cancel_in_graph t w ≡ (ok tt, w')
    → ((is_terminal_task_state t.state ≡ true) × (w' ≡ w))
      ⊎ ((k : TaskId) → state_at k w'.db ≡ state_after k t.id TaskState.cancelled (state_at k w.db))
unfolding cancel_in_graph
cancel_in_graph-state_at t w w' e = elim (Bool-cases (is_terminal_task_state t.state)) [
  | inl over ↦ inl (over, ground arith)
  | inr goes_on ↦
      let (_, v, e1, e2) =
        >>=-eq-ok (update_task_state t.id TaskState.cancelled none none) (λ _. cancel_attempts_of t)
          w w' (ground arith) in
      let same = cancel_attempts-KeepsGraph (list_attempts_for_task t.id v.db) v w' tt e2 in
      inr (λ k.
        state_at-same v.db w'.db same k
        ∙ update_task_state-state_at t.id TaskState.cancelled none none w v e1 k)
]

over_after :
    (k i : TaskId) (o : Option TaskState)
    → is_finished o ≡ true
    → is_finished (state_after k i TaskState.cancelled o) ≡ true
over_after k i none h = refl
over_after k i (some s) h = ground arith

over_here :
    (i : TaskId) (o : Option TaskState) → is_finished (state_after i i TaskState.cancelled o) ≡ true
over_here i none = refl
over_here i (some s) = ground (arith, ==-refl i)

pub round_keeps :
    (t : Task) (w w' : World)
    → cancel_in_graph t w ≡ (ok tt, w')
    → (k : TaskId) → is_finished (state_at k w.db) ≡ true
    → is_finished (state_at k w'.db) ≡ true
round_keeps t w w' e k h = elim (cancel_in_graph-state_at t w w' e) [
  | inl (_, same) ↦ subst (λ (x : World). is_finished (state_at k x.db) ≡ true) (sym same) h
  | inr states ↦ rw (states k) (over_after k t.id (state_at k w.db) h)
]

pub round_ends :
    (t : Task) (w w' : World)
    → cancel_in_graph t w ≡ (ok tt, w')
    → (not (is_terminal_task_state t.state) || is_finished (state_at t.id w.db)) ≡ true
    → is_finished (state_at t.id w'.db) ≡ true
round_ends t w w' e h = elim (cancel_in_graph-state_at t w w' e) [
  | inl (over, same) ↦
      subst (λ (x : World). is_finished (state_at t.id x.db) ≡ true) (sym same) (ground arith)
  | inr states ↦ rw (states t.id) (over_here t.id (state_at t.id w.db))
]
