-- ===== src/Scheduler/Bounds.antt =====
-- The bounds of a tick of src/zero/app/scheduler_service.py: handoffs claimed and tasks run.
use zero_agent_dev_telegram.Common.{
  ◌≡◌, refl, arith, ℕ, suc, zero, ◌+◌, ◌-◌, ◌≤◌, List, [], ◌∷◌, ◌++◌, length, length-append, leb,
  select, Bool-cases, inl, inr, ◌==◌, ◌&&◌,
}
use zero_agent_dev_telegram.Domain.Plans.{PlanHandoff}
use zero_agent_dev_telegram.Domain.Execution.{ExecutionId, Execution}
use zero_agent_dev_telegram.Domain.Errors.{Error}
use zero_agent_dev_telegram.Domain.Authorization.{Permission}
use zero_agent_dev_telegram.Database.{World}
use zero_agent_dev_telegram.Exec.{Result, ok, err, Exec, pure, ◌>>=◌, query, >>=-eq-ok, guard-eq-ok}
use zero_agent_dev_telegram.Authorization.{require_permission}
use zero_agent_dev_telegram.Repository.Plan.{take, list_unclaimed_handoffs, unclaimed}
use zero_agent_dev_telegram.Scheduler.Retries.{Settings, Caller, retry_pass, is_caught}
use zero_agent_dev_telegram.Scheduler.Drains.{
  Drained, is_runnable, add_batch, trimmed, drain_serial, drain_parallel, gather, use_parallel,
}
use zero_agent_dev_telegram.Scheduler.Handoffs.{
  Intake, Claimed, count_claim, newly, claim_handoff, claim_each, claim_handoffs,
}
use zero_agent_dev_telegram.Scheduler.Ticks.{
  Tick, TickResult, drain, in_bounds, run_tick, list_project_executions,
}

pub length-take {ℓ} : {A : Type ℓ} (n : ℕ) (xs : List A) → length (take n xs) ≤ n
length-take zero xs = omega arith
length-take (suc n) [] = omega arith
length-take (suc n) (x ∷ xs) = omega (arith, length-take n xs)

count_claim-count :
    (handoff : PlanHandoff) (k : ℕ) (next : ℕ → List ℕ → Exec Claimed)
    (x : Result Execution × World) (w' : World) (claimed : Claimed)
    → ((n : ℕ) (failed : List ℕ) (v : World)
        → next n failed v ≡ (ok claimed, w')
        → claimed.0 ≤ n + k)
    → count_claim handoff next x ≡ (ok claimed, w')
    → claimed.0 ≤ suc k
count_claim-count handoff k next (ok execution, w) w' claimed bound e =
    ground (arith, bound (newly handoff) [] w)
count_claim-count handoff k next (err y, w) w' claimed bound e =
    ground (arith, bound 0 (handoff.id ∷ []) w)

claim_each-count :
    (intake : Intake) (c : Caller) (handoffs : List PlanHandoff) (w w' : World) (claimed : Claimed)
    → claim_each intake c handoffs w ≡ (ok claimed, w')
    → claimed.0 ≤ length handoffs
unfolding claim_each
claim_each-count intake c [] w w' claimed e = ground arith
claim_each-count intake c (handoff ∷ rest) w w' claimed e =
    count_claim-count handoff (length rest) _ (claim_handoff intake c handoff w) w' claimed
      (λ n failed v h.
        let (others, u, e1, e2) =
          >>=-eq-ok (claim_each intake c rest) (λ o. pure (n + o.0, failed ++ o.1)) v w' h in
        ground (arith, claim_each-count intake c rest v u others e1, e2))
      e

claim_handoffs-count :
    (intake : Intake) (c : Caller) (max_handoffs : ℕ) (w w' : World) (claimed : Claimed)
    → claim_handoffs intake c max_handoffs w ≡ (ok claimed, w')
    → claimed.0 ≤ max_handoffs
unfolding claim_handoffs list_unclaimed_handoffs
claim_handoffs-count intake c max_handoffs w w' claimed e =
    let (d, v, e1, e2) =
      >>=-eq-ok (require_permission c.actor_id c.project_id Permission.execution_start c.source)
        (λ _. query (list_unclaimed_handoffs c.project_id max_handoffs) >>= claim_each intake c) w
        w' e in
    let rows = list_unclaimed_handoffs c.project_id max_handoffs v.db in
    omega (
      arith,
      claim_each-count intake c rows v w' claimed e2,
      length-take max_handoffs
          (select (λ h. h.project_id == c.project_id && unclaimed h) v.db.plan_handoffs),
    )

module _ {R : Type 0} where
  -- The runtime returns at most as many results as its budget says.
  abbrev pub KeepsBudget : (ExecutionId → ℕ → Exec (List R)) → Type 0
  KeepsBudget run =
      (id : ExecutionId) (budget : ℕ) (w w' : World) (batch : List R)
      → run id budget w ≡ (ok batch, w')
      → length batch ≤ budget

  add_batch-count :
      (id : ExecutionId) (n : ℕ) (d d' : Drained R) (next : Drained R → Exec (Drained R))
      (x : Result (List R) × World) (w' : World)
      → ((batch : List R) (v : World) → x ≡ (ok batch, v) → length d.0 + length batch ≤ n)
      → length d.0 ≤ n
      → ((o : Drained R) (v : World) → length o.0 ≤ n → next o v ≡ (ok d', w') → length d'.0 ≤ n)
      → add_batch id d next x ≡ (ok d', w')
      → length d'.0 ≤ n
  add_batch-count id n (results, failed) d' next (ok batch, v) w' fits small bound e =
      bound (results ++ batch, failed) v (rw (length-append results batch) (fits batch v refl)) e
  add_batch-count id n (results, failed) d' next (err y, v) w' fits small bound e =
      elim (Bool-cases (is_caught y)) [
        | inl caught ↦ bound (results, failed ++ id ∷ []) v small (ground (arith, caught, e))
        | inr thrown ↦ absurd (ground (arith, thrown, e))
      ]

  drain_serial-count :
      (run : ExecutionId → ℕ → Exec (List R)) (max_tasks : ℕ) (runnable : List Execution)
      (d d' : Drained R) (w w' : World)
      → KeepsBudget run
      → length d.0 ≤ max_tasks
      → drain_serial run max_tasks runnable d w ≡ (ok d', w')
      → length d'.0 ≤ max_tasks
  unfolding drain_serial
  drain_serial-count run max_tasks [] d d' w w' keeps h e = ground arith
  drain_serial-count run max_tasks (x ∷ rest) d d' w w' keeps h e =
      elim (Bool-cases (leb max_tasks (length d.0))) [
        | inl full ↦ ground (arith, full)
        | inr free ↦
            add_batch-count x.id max_tasks d d' (drain_serial run max_tasks rest)
              (run x.id (max_tasks - length d.0) w) w'
              (λ batch v returned.
                ground (arith, keeps x.id (max_tasks - length d.0) w v batch returned))
              h (λ o v small more. drain_serial-count run max_tasks rest o d' v w' keeps small more)
              (ground (arith, free, e))
      ]

  trimmed-count :
      (n : ℕ) (x : Result (Drained R)) (d : Drained R) → trimmed n x ≡ ok d → length d.0 ≤ n
  trimmed-count n (ok (collected, failed)) d e = ground (arith, length-take n collected)
  trimmed-count n (err y) d e = absurd (cc)

  drain-count :
      (t : Tick R) (runnable : List Execution) (d : Drained R) (w w' : World)
      → KeepsBudget t.run_ready_tasks
      → drain t runnable w ≡ (ok d, w')
      → length d.0 ≤ t.max_tasks
  unfolding drain drain_parallel
  drain-count t runnable d w w' keeps e = elim (Bool-cases (use_parallel t.parallel runnable)) [
    | inl pooled ↦
        trimmed-count t.max_tasks (gather runnable (t.run_pool runnable t.max_tasks w).0) d
          (ground (arith, pooled, e))
    | inr serial ↦
        drain_serial-count t.run_ready_tasks t.max_tasks runnable ([], []) d w w' keeps
          (omega arith) (ground (arith, serial, e))
  ]

  -- What follows the handoffs.
  abbrev finish_tick : Settings → Caller → Tick R → Claimed → List Execution → Exec (TickResult R)
  finish_tick s c t claimed executions = do
    drained ← drain t (select is_runnable executions)
    retried ← retry_pass s c (select is_runnable executions)
    pure (record {
      handoffs_claimed = claimed.0;
      executions_seen = length executions;
      task_results = drained.0;
      failed = claimed.1 ++ drained.1 ++ retried;
    })

  finish_tick-count :
      (s : Settings) (c : Caller) (t : Tick R) (claimed : Claimed) (executions : List Execution)
      (w w' : World) (result : TickResult R)
      → KeepsBudget t.run_ready_tasks
      → finish_tick s c t claimed executions w ≡ (ok result, w')
      → (result.handoffs_claimed ≡ claimed.0) × (length result.task_results ≤ t.max_tasks)
  finish_tick-count s c t claimed executions w w' result keeps e =
      let (drained, v, e1, e2) =
        >>=-eq-ok (drain t (select is_runnable executions))
          (λ drained. do
            retried ← retry_pass s c (select is_runnable executions)
            pure (record {
              handoffs_claimed = claimed.0;
              executions_seen = length executions;
              task_results = drained.0;
              failed = claimed.1 ++ drained.1 ++ retried;
            }))
          w w' e in
      ground (arith, drain-count t (select is_runnable executions) drained w v keeps e1, e2)

  -- A tick is bounded: if it returns, it has claimed no more handoffs than it was allowed, which is at
  -- most 64, and reports no more task results than it was allowed, which is at most 128, drained one
  -- by one or side by side, if the runtime keeps the budget of each call.
  pub run_tick-bounds :
      (s : Settings) (intake : Intake) (c : Caller) (t : Tick R) (w w' : World)
      (result : TickResult R)
      → KeepsBudget t.run_ready_tasks
      → run_tick s intake c t w ≡ (ok result, w')
      → (result.handoffs_claimed ≤ t.max_handoffs)
        × (t.max_handoffs ≤ 64)
        × (length result.task_results ≤ t.max_tasks)
        × (t.max_tasks ≤ 128)
  unfolding run_tick
  run_tick-bounds s intake c t w w' result keeps e =
      let (inside, e1) = guard-eq-ok (in_bounds t) Error.value_error _ w w' e in
      let (_, u, _, e2) =
        >>=-eq-ok (require_permission c.actor_id c.project_id Permission.execution_start c.source) _
          w w' e1 in
      let (claimed, v, e3, e4) = >>=-eq-ok (claim_handoffs intake c t.max_handoffs) _ u w' e2 in
      let (executions, x, _, e5) =
        >>=-eq-ok (list_project_executions c) (finish_tick s c t claimed) v w' e4 in
      let (same, few) = finish_tick-count s c t claimed executions x w' result keeps e5 in
      let some_handoffs = claim_handoffs-count intake c t.max_handoffs u v claimed e3 in
      ground (arith, inside, same, few, some_handoffs)
