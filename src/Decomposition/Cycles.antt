-- ===== src/Decomposition/Cycles.antt =====
-- The loop of `_has_cycle` in src/zero/app/task_decomposition.py ends.
use zero_agent_dev_telegram.Common.{
  ◌≡◌, refl, subst, ap, arith, ℕ, zero, suc, ◌+◌, ◌≤◌, false, not, some, String, List, [], ◌∷◌,
  ◌==◌, length,
}
use zero_agent_dev_telegram.WorkerService.Specs.{
  DependencySpec, Degrees, has_duplicate, neighbors, relax, roots_of, initial_degrees,
}
use zero_agent_dev_telegram.WorkerService.Sorting.{
  positives, keys_of, relax-balance, length-roots_of, initial_degrees-keys,
}
use zero_agent_dev_telegram.Decomposition.Validation.{pop, visit, has_cycle}

length-pop : (k : String) (rest : List String) → length (pop k rest).0 ≡ length rest
unfolding pop
length-pop k [] = refl
length-pop k (j ∷ rest) = ap suc (length-pop j rest)

visit-ends :
    (edges : List DependencySpec) (fuel : ℕ) (ready : List String) (d : Degrees) (visited : ℕ)
    → length ready + positives d ≤ fuel
    → (v : ℕ) × (visit edges fuel ready d visited ≡ some v)
unfolding visit
visit-ends edges fuel [] d visited h = (visited, refl)
visit-ends edges zero (k ∷ ready) d visited h = absurd (omega arith)
visit-ends edges (suc fuel) (k ∷ ready) d visited h =
    let popped = pop k ready in
    let next = relax (neighbors edges popped.1) popped.0 d in
    visit-ends edges fuel next.0 next.1 (suc visited)
      (omega (arith, relax-balance (neighbors edges popped.1) popped.0 d, length-pop k ready))

-- As much fuel as there are keys is enough: for distinct keys the loop visits some number of them, and
-- there is a cycle exactly when it has not visited all.
pub has_cycle-ends :
    (order : List String) (edges : List DependencySpec)
    → has_duplicate order ≡ false
    → (v : ℕ) × (has_cycle order edges ≡ not (v == length order))
unfolding has_cycle
has_cycle-ends order edges distinct =
    let start = initial_degrees order edges in
    let same : keys_of start ≡ order = initial_degrees-keys order edges in
    let balanced : length (roots_of start order) + positives start ≡ length order =
      subst (λ ks. length (roots_of start ks) + positives start ≡ length ks) same
        (length-roots_of start (rw same distinct)) in
    let (v, ends) =
      visit-ends edges (length order) (roots_of start order) start 0 (omega (arith, balanced)) in
    (v, rw ends refl)
