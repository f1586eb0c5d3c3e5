-- ===== src/WorkerService/Ordered/Rounds.antt =====
-- The loop of restart recovery in src/zero/app/worker_service.py over the running tasks.
use zero_agent_dev_telegram.Common.{
  ◌≡◌, ◌⊎◌, inl, inr, refl, arith, Bool, true, not, ◌&&◌, ◌||◌, Option, none, some, List, [], ◌∷◌,
  all, any, Bool-cases,
}
use zero_agent_dev_telegram.Domain.Identity.{ProjectId}
use zero_agent_dev_telegram.Domain.Execution.{TaskId, TaskState, Task, TaskAttempt, task_state_eq}
use zero_agent_dev_telegram.Database.{Db, World}
use zero_agent_dev_telegram.Exec.{ok, ◌>>◌, >>=-eq-ok}
use zero_agent_dev_telegram.Repository.Execution.{update_task_state}
use zero_agent_dev_telegram.Repository.Attempts.{list_attempts_for_task, update_attempt_state}
use zero_agent_dev_telegram.WorkerService.Loops.{for_each}
use zero_agent_dev_telegram.WorkerService.Recovery.{
  is_running, has_live_lease, running_attempts_of, last, mark_unknown, recover_task,
}
use zero_agent_dev_telegram.WorkerService.Ordered.{
  state_at, is_done, is_engaged, has_task_keys, IsGrowth,
}
use zero_agent_dev_telegram.WorkerService.Ordered.Progress.{all-imp, IsGrowth-trans}
use zero_agent_dev_telegram.WorkerService.Ordered.Rows.{
  state_after, update_task_state-IsGrowth, update_task_state-keys, update_task_state-state_at,
}
use zero_agent_dev_telegram.WorkerService.Ordered.Kept.{same_state}
use zero_agent_dev_telegram.WorkerService.Ordered.Others.{IsSameGraph, state_at-same, KeepsGraph}
use zero_agent_dev_telegram.WorkerService.Ordered.Settled.{same_graph-IsGrowth}

-- Let through and not complete.
abbrev pub is_open : Option TaskState → Bool
is_open o = is_engaged o && not (is_done o)

pub record IsRecovered (before after : Db) : Type 0 where
  pub growth : IsGrowth before after
  pub keys : has_task_keys before.tasks ≡ true → has_task_keys after.tasks ≡ true
  pub opened : (k : TaskId) → is_open (state_at k before) ≡ true → is_open (state_at k after) ≡ true

same-IsRecovered : (a b : Db) → IsSameGraph a b → IsRecovered a b
same-IsRecovered a b s = record {
  growth = same_graph-IsGrowth a b s;
  keys = λ h. rw (s.tasks) h;
  opened = λ k h. rw (state_at-same a b s k) h;
}

IsRecovered-trans : (a b c : Db) → IsRecovered a b → IsRecovered b c → IsRecovered a c
IsRecovered-trans a b c p q = record {
  growth = IsGrowth-trans a b c p.growth q.growth;
  keys = λ h. q.keys (p.keys h);
  opened = λ k h. q.opened k (p.opened k h);
}

open_after :
    (k i : TaskId) (o : Option TaskState)
    → is_open o ≡ true
    → is_open (state_after k i TaskState.ready o) ≡ true
open_after k i none h = h
open_after k i (some s) h = ground arith

made_ready :
    (i : TaskId) (w w' : World)
    → update_task_state i TaskState.ready none none w ≡ (ok tt, w')
    → is_open (state_at i w.db) ≡ true
    → IsRecovered w.db w'.db
made_ready i w w' e opened = record {
  growth =
      update_task_state-IsGrowth i TaskState.ready none none w w' e (ground arith) (ground arith);
  keys = update_task_state-keys i TaskState.ready none none w w' e;
  opened = λ k h.
      rw (update_task_state-state_at i TaskState.ready none none w w' e k)
        (open_after k i (state_at k w.db) h);
}

mark_unknown-KeepsGraph : (o : Option TaskAttempt) → KeepsGraph (mark_unknown o)
unfolding mark_unknown update_attempt_state
mark_unknown-KeepsGraph none w w' u e = ground arith
mark_unknown-KeepsGraph (some a) w w' u e = ground arith

-- One round: nothing happens, or the task's attempt is unknown and the task is ready.
recover_task-rounds :
    (project : ProjectId) (t : Task) (w w' : World)
    → recover_task project t w ≡ (ok tt, w')
    → (w' ≡ w)
      ⊎ ((is_running t ≡ true)
          × ((mark_unknown (last (running_attempts_of t project w.db))
                  >> update_task_state t.id TaskState.ready none none)
                w
              ≡ (ok tt, w')))
unfolding recover_task list_attempts_for_task
recover_task-rounds project t w w' e = elim (Bool-cases (is_running t)) [
  | inr idle ↦ inl (ground arith)
  | inl runs ↦ elim (Bool-cases (any (has_live_lease w.now) (running_attempts_of t project w.db))) [
    | inl live ↦ inl (ground arith)
    | inr lost ↦ inr (runs, ground arith)
  ]
]

recover_task-IsRecovered :
    (project : ProjectId) (t : Task) (w w' : World)
    → recover_task project t w ≡ (ok tt, w')
    → (not (is_running t) || is_open (state_at t.id w.db)) ≡ true
    → IsRecovered w.db w'.db
recover_task-IsRecovered project t w w' e h = elim (recover_task-rounds project t w w' e) [
  | inl same ↦ rw same (same-IsRecovered w.db w.db (record { tasks = refl; edges = refl }))
  | inr (runs, writes) ↦
      let (_, v, e1, e2) =
        >>=-eq-ok (mark_unknown (last (running_attempts_of t project w.db)))
          (λ _. update_task_state t.id TaskState.ready none none) w w' writes in
      let p =
        same-IsRecovered w.db v.db
          (mark_unknown-KeepsGraph (last (running_attempts_of t project w.db)) w v tt e1) in
      IsRecovered-trans w.db v.db w'.db p (made_ready t.id v w' e2 (p.opened t.id (ground arith)))
]

abbrev pub is_honest : Db → Task → Bool
is_honest db t = not (is_running t) || is_open (state_at t.id db)

pub honest_of_same :
    (o : Option TaskState) (t : Task)
    → same_state o t ≡ true
    → (not (is_running t) || is_open o) ≡ true
honest_of_same none t h = absurd (cc)
honest_of_same (some s) t h = same_index s t.state h
  where
    same_index :
        (s s' : TaskState)
        → task_state_eq s s' ≡ true
        → (not (task_state_eq s' TaskState.running) || is_open (some s)) ≡ true
    same_index s TaskState.running h = ground arith
    same_index s s' h = refl

pub for_each-IsRecovered :
    (project : ProjectId) (ts : List Task) (w w' : World)
    → for_each (recover_task project) ts w ≡ (ok tt, w')
    → all (is_honest w.db) ts ≡ true
    → IsRecovered w.db w'.db
unfolding for_each
for_each-IsRecovered project [] w w' e h =
    let same : w' ≡ w = ground arith in
    rw same (same-IsRecovered w.db w.db (record { tasks = refl; edges = refl }))
for_each-IsRecovered project (t ∷ ts) w w' e h =
    let (_, v, e1, e2) =
      >>=-eq-ok (recover_task project t) (λ _. for_each (recover_task project) ts) w w' e in
    let p = recover_task-IsRecovered project t w v e1 (ground arith) in
    IsRecovered-trans w.db v.db w'.db p (
      for_each-IsRecovered project ts v w' e2 (
        all-imp (is_honest w.db) (is_honest v.db) ts (λ u a. ground (arith, a, p.opened u.id))
          (ground arith)))
