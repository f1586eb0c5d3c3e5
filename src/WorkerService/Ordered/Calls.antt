-- ===== src/WorkerService/Ordered/Calls.antt =====
-- Whole calls of the methods of src/zero/app/worker_service.py that end a task: a call reads the task
-- before its transaction opens, and the row has that state where nothing commits in between.
use zero_agent_dev_telegram.Common.{
  ◌≡◌, refl, sym, ap, subst, arith, Bool, true, false, Option, some, none, List, [], ◌∷◌, String,
  all, first, if◌then◌else◌, inl, inr,
}
use zero_agent_dev_telegram.Domain.Identity.{ProjectId}
use zero_agent_dev_telegram.Domain.Authorization.{Permission}
use zero_agent_dev_telegram.Domain.Execution.{
  TaskId, TaskAttemptId, TaskState, Execution, Task, task_state_eq, is_terminal_task_state,
}
use zero_agent_dev_telegram.Database.{Db, World}
use zero_agent_dev_telegram.Exec.{Exec, ok, pure, ◌>>=◌, ◌>>◌, >>=-eq-ok}
use zero_agent_dev_telegram.Repository.Execution.{find_task, get_task}
use zero_agent_dev_telegram.WorkerService.Leases.{validate_attempt_identity}
use zero_agent_dev_telegram.WorkerService.Held.{validate_attempt_identity-IsHeld}
use zero_agent_dev_telegram.WorkerService.Transitions.{TaskCall, open_call}
use zero_agent_dev_telegram.WorkerService.Completing.{open_call-IsOpened, if-eq}
use zero_agent_dev_telegram.WorkerService.Ordered.{state_at, is_done, has_task_keys, IsGrowth}
use zero_agent_dev_telegram.WorkerService.Ordered.Progress.{same-IsGrowth}
use zero_agent_dev_telegram.WorkerService.Ordered.Kept.{same_state, same_state-keys, done_of_same}

first_of_all :
    {A : Type 0} (p q : A → Bool) (xs : List A) (a : A)
    → all p xs ≡ true
    → first q xs ≡ some a
    → p a ≡ true
unfolding first
first_of_all p q [] a h e = absurd (cc)
first_of_all p q (x ∷ xs) a h e = ground (arith, first_of_all p q xs a)

-- The row that a call has read has the state that the task's id finds.
pub found-same_state :
    (k : TaskId) (project : ProjectId) (db : Db) (task : Task)
    → has_task_keys db.tasks ≡ true
    → find_task k (some project) db ≡ some task
    → same_state (state_at task.id db) task ≡ true
unfolding find_task
found-same_state k project db task keys found =
    first_of_all (λ t. same_state (state_at t.id db) t) _ db.tasks task (same_state-keys db keys)
      found

pub state_of_same :
    (s : TaskState) (o : Option TaskState) (task : Task)
    → ((x : TaskState) → task_state_eq x s ≡ true → x ≡ s)
    → task.state ≡ s
    → same_state o task ≡ true
    → o ≡ some s
state_of_same s none task only is_s h = absurd (cc)
state_of_same s (some x) task only is_s h =
    ap some (only x (subst (λ (y : TaskState). task_state_eq x y ≡ true) is_s h))

pub failed_only : (s : TaskState) → task_state_eq s TaskState.failed ≡ true → s ≡ TaskState.failed
failed_only TaskState.failed h = refl
failed_only s h = absurd (cc)

pub not_done_of_same :
    (o : Option TaskState) (task : Task)
    → is_terminal_task_state task.state ≡ false
    → same_state o task ≡ true
    → is_done o ≡ false
not_done_of_same o task live same = ground (arith, done_of_same o task same)

-- The fence writes nothing.
pub validated :
    (task : Task) (id : TaskAttemptId) (owner : Option String) (live : Bool) (m : Exec Unit)
    (w w' : World)
    → (validate_attempt_identity task id owner live >> m) w ≡ (ok tt, w')
    → m w ≡ (ok tt, w')
validated task id owner live m w w' e =
    let (_, v, e1, e2) = >>=-eq-ok (validate_attempt_identity task id owner live) (λ _. m) w w' e in
    let (same, _) = validate_attempt_identity-IsHeld task id owner live w v e1 in
    subst (λ (x : World). m x ≡ (ok tt, w')) same e2

pub get_task-same :
    (k : TaskId) (project : ProjectId) (w w' : World) (t : Task)
    → get_task k (some project) w ≡ (ok t, w')
    → w' ≡ w
unfolding get_task
get_task-same k project w w' t e = ground arith

-- A transaction that keeps the order of work where the row has the state that was read.
abbrev pub GrowsIfRead : (Execution → Task → Exec Unit) → Type 0
GrowsIfRead commit =
    (execution : Execution) (task : Task) (w w' : World)
    → has_task_keys w.db.tasks ≡ true
    → is_terminal_task_state task.state ≡ false
    → same_state (state_at task.id w.db) task ≡ true
    → commit execution task w ≡ (ok tt, w')
    → IsGrowth w.db w'.db

module _ (permission : Permission) (c : TaskCall) (over : Task → Exec Task)
    (commit : Execution → Task → Exec Unit) where
  abbrev committed : Execution × Task → Exec Task
  committed found = do commit found.0 found.1; get_task c.task_id (some c.project_id)

  abbrev carried_out : Execution × Task → Exec Task
  carried_out found = if is_terminal_task_state found.1.state then over found.1 else committed found

  pub call-IsGrowth :
      ((task t : Task) (w w' : World) → over task w ≡ (ok t, w') → w' ≡ w)
      → GrowsIfRead commit
      → (w w' : World) (t : Task) → has_task_keys w.db.tasks ≡ true
      → (open_call permission c >>= carried_out) w ≡ (ok t, w')
      → IsGrowth w.db w'.db
  call-IsGrowth keeps grows w w' t keys e =
      let ((execution, task), v, opened, rest) =
        >>=-eq-ok (open_call permission c) carried_out w w' e in
      let o = open_call-IsOpened permission c w v execution task opened in
      let rest' : carried_out (execution, task) w ≡ (ok t, w') =
        subst (λ (x : World). carried_out (execution, task) x ≡ (ok t, w')) o.same rest in
      elim (if-eq (is_terminal_task_state task.state) (over task) (committed (execution, task)) w
        (ok t, w') rest') [
          | inl (_, e1) ↦
              let same = keeps task t w w' e1 in
              same-IsGrowth w.db w'.db (ap (λ (x : World). x.db.tasks) same)
                (ap (λ (x : World). x.db.task_dependencies) same)
          | inr (live, e1) ↦
              let (_, u, e2, e3) =
                >>=-eq-ok (commit execution task) (λ _. get_task c.task_id (some c.project_id)) w w'
                  e1 in
              subst (λ (x : World). IsGrowth w.db x.db)
                (sym (get_task-same c.task_id c.project_id u w' t e3))
                (grows execution task w u keys live
                  (found-same_state c.task_id c.project_id w.db task keys o.found) e2)
        ]

pub pure-same : (task t : Task) (w w' : World) → pure task w ≡ (ok t, w') → w' ≡ w
pure-same task t w w' e = ground arith
