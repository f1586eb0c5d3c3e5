-- ===== src/Scheduler/Drains.antt =====
-- The drains of `SchedulerService.run_once` of src/zero/app/scheduler_service.py: how many ready tasks
-- of which executions are run in one tick. The runtime that runs them, `run_ready_tasks`, is given,
-- and so are the outcomes of the thread pool.
use zero_agent_dev_telegram.Common.{
  ℕ, ◌-◌, Bool, true, false, ◌&&◌, List, [], ◌∷◌, ◌++◌, length, ltb, leb, if◌then◌else◌,
}
use zero_agent_dev_telegram.Domain.Execution.{ExecutionId, ExecutionState, Execution}
use zero_agent_dev_telegram.Database.{World}
use zero_agent_dev_telegram.Exec.{Result, ok, err, Exec}
use zero_agent_dev_telegram.Repository.Plan.{take}
use zero_agent_dev_telegram.Scheduler.Retries.{is_caught}

-- `execution.state in {"pending", "running", "paused"}`.
abbrev pub is_runnable : Execution → Bool
is_runnable e = elim e.state [
  | ExecutionState.pending ↦ true
  | ExecutionState.running ↦ true
  | ExecutionState.paused ↦ true
  | _ ↦ false
]

-- `max(1, min(8, int(parallel_executions)))`.
unfoldable pub parallel_executions : ℕ → ℕ
parallel_executions n = if ltb n 1 then 1 else if ltb 8 n then 8 else n

abbrev pub use_parallel : ℕ → List Execution → Bool
use_parallel parallel runnable = ltb 1 (parallel_executions parallel) && ltb 1 (length runnable)

-- The results so far, and the executions whose drain failed.
abbrev pub Drained : Type 0 → Type 0
Drained R = List R × List ExecutionId

module _ {R : Type 0} where
  -- A batch that returns is added; a failure is noted, and what it wrote stays.
  abbrev pub add_batch :
      ExecutionId
      → Drained R
      → (Drained R → Exec (Drained R))
      → Result (List R) × World
      → Result (Drained R) × World
  add_batch id (results, failed) next (ok batch, w) = next (results ++ batch, failed) w
  add_batch id (results, failed) next (err e, w) =
      if is_caught e then next (results, failed ++ id ∷ []) w else (err e, w)

  unfoldable pub drain_serial :
      (ExecutionId → ℕ → Exec (List R)) → ℕ → List Execution → Drained R → Exec (Drained R)
  drain_serial run_ready_tasks max_tasks [] d w = (ok d, w)
  drain_serial run_ready_tasks max_tasks (e ∷ rest) d w = elim (leb max_tasks (length d.0)) [
    | true ↦ (ok d, w)
    | false ↦
        add_batch e.id d (drain_serial run_ready_tasks max_tasks rest)
          (run_ready_tasks e.id (max_tasks - length d.0) w)
  ]

  abbrev prepend : List R → Result (Drained R) → Result (Drained R)
  prepend batch (ok (results, failed)) = ok (batch ++ results, failed)
  prepend batch (err e) = err e

  abbrev note_failure : ExecutionId → Result (Drained R) → Result (Drained R)
  note_failure id (ok (results, failed)) = ok (results, id ∷ failed)
  note_failure id (err e) = err e

  abbrev add_outcome : ExecutionId → Result (List R) → Result (Drained R) → Result (Drained R)
  add_outcome id (ok batch) others = prepend batch others
  add_outcome id (err e) others = if is_caught e then note_failure id others else err e

  -- `zip(runnable, futures)`.
  unfoldable pub gather : List Execution → List (Result (List R)) → Result (Drained R)
  gather [] outcomes = ok ([], [])
  gather (e ∷ rest) [] = ok ([], [])
  gather (e ∷ rest) (x ∷ outcomes) = add_outcome e.id x (gather rest outcomes)

  abbrev pub trimmed : ℕ → Result (Drained R) → Result (Drained R)
  trimmed max_tasks (ok (collected, failed)) = ok (take max_tasks collected, failed)
  trimmed max_tasks (err e) = err e

  -- `collected[:max_tasks]`.
  unfoldable pub drain_parallel : ℕ → List Execution → List (Result (List R)) → Result (Drained R)
  unfolding gather
  drain_parallel max_tasks runnable outcomes = trimmed max_tasks (gather runnable outcomes)
