-- ===== src/WorkerService/Specs.antt =====
-- The graph that `create_execution_from_handoff` of src/zero/app/worker_service.py is given, and the
-- validation of it: sizes, texts, keys and cycles. What the annotations make a string is one.
use zero_agent_dev_telegram.Common.{
  ℕ, zero, suc, ◌-◌, Bool, false, not, ◌||◌, Option, none, some, List, [], ◌∷◌, ◌++◌, String, ◌==◌,
  ltb, text_eq, text_length, is_blank, length, any, is_empty, select, map, if◌then◌else◌,
}
use zero_agent_dev_telegram.Domain.Errors.{Error}
use zero_agent_dev_telegram.Exec.{Exec, raise, guard, ◌>>◌}
use zero_agent_dev_telegram.WorkerService.Loops.{for_each}
use zero_agent_dev_telegram.WorkerService.Evidence.{member}

pub record TaskSpec : Type 0 where
  pub objective : String
  pub permitted_scope : List String
  pub expected_evidence : List String
  pub key : Option String
  pub agent_type_id : Option ℕ

pub record DependencySpec : Type 0 where
  pub task_key : String
  pub depends_on_key : String

abbrev pub or_objective : String → Option String → String
or_objective objective none = objective
or_objective objective (some key) = if text_eq key "" then objective else key

-- `spec.key or spec.objective`.
unfoldable pub key_of : TaskSpec → String
key_of spec = or_objective spec.objective spec.key

abbrev pub is_long_key : Option String → Bool
is_long_key none = false
is_long_key (some key) = ltb 256 (text_length key)

unfoldable pub validate_spec : TaskSpec → Exec Unit
validate_spec spec = do
  guard (not (is_blank spec.objective)) Error.value_error
  guard (not (ltb 8192 (text_length spec.objective))) Error.value_error
  guard (not (is_long_key spec.key)) Error.value_error
  guard
      (not (
        ltb 64 (length spec.permitted_scope)
        || any (λ path. ltb 1024 (text_length path)) spec.permitted_scope))
      Error.value_error
  guard
      (not (
        ltb 64 (length spec.expected_evidence)
        || any (λ item. is_blank item || ltb 1024 (text_length item)) spec.expected_evidence))
      Error.value_error

unfoldable pub has_duplicate : List String → Bool
has_duplicate [] = false
has_duplicate (k ∷ rest) = member k rest || has_duplicate rest

abbrev pub refuse_loop : DependencySpec → Exec Unit
refuse_loop dep = guard (not (text_eq dep.task_key dep.depends_on_key)) (Error.cycle [])

unfoldable pub validate_specs : List TaskSpec → List DependencySpec → Exec Unit
unfolding validate_spec has_duplicate
validate_specs task_specs dependency_specs = do
  guard (not (is_empty task_specs)) Error.value_error
  guard (not (ltb 256 (length task_specs))) Error.value_error
  guard (not (ltb 1024 (length dependency_specs))) Error.value_error
  for_each validate_spec task_specs
  guard (not (has_duplicate (map key_of task_specs))) Error.value_error
  for_each refuse_loop dependency_specs

-- The dictionary `in_degree`, with its keys in order.
abbrev pub Degrees : Type 0
Degrees = List (String × ℕ)

unfoldable pub degree : Degrees → String → ℕ
degree [] k = 0
degree ((key, n) ∷ rest) k = if text_eq key k then n else degree rest k

-- `in_degree[k] += 1` and `in_degree[k] -= 1`. A count that the source takes below zero stays at
-- zero here: it is compared to zero after a decrement only, which the loop asks before it.
unfoldable pub raise_degree : String → Degrees → Degrees
raise_degree k [] = []
raise_degree k ((key, n) ∷ rest) =
    if text_eq key k then (key, suc n) ∷ rest else (key, n) ∷ raise_degree k rest

unfoldable pub lower_degree : String → Degrees → Degrees
lower_degree k [] = []
lower_degree k ((key, n) ∷ rest) =
    if text_eq key k then (key, n - 1) ∷ rest else (key, n) ∷ lower_degree k rest

abbrev pub zero_degree : String → String × ℕ
zero_degree k = (k, 0)

unfoldable pub count_degrees : List DependencySpec → Degrees → Degrees
unfolding raise_degree
count_degrees [] degrees = degrees
count_degrees (dep ∷ rest) degrees = count_degrees rest (raise_degree dep.task_key degrees)

-- `adj[node]`, in the order of the edges.
unfoldable pub neighbors : List DependencySpec → String → List String
neighbors dependency_specs node =
    map (λ d. d.task_key) (select (λ d. text_eq d.depends_on_key node) dependency_specs)

-- The inner loop: each neighbour loses an edge and is enqueued when it was the last one.
unfoldable pub relax : List String → List String → Degrees → List String × Degrees
unfolding lower_degree degree
relax [] queue degrees = (queue, degrees)
relax (n ∷ rest) queue degrees =
    relax rest (if degree degrees n == 1 then queue ++ n ∷ [] else queue) (lower_degree n degrees)

-- The outer loop, which counts what it takes from the queue; `none` is fuel that ran out.
unfoldable pub kahn : List DependencySpec → ℕ → List String → Degrees → ℕ → Option (ℕ × Degrees)
unfolding relax neighbors
kahn deps fuel [] degrees visited = some (visited, degrees)
kahn deps zero (node ∷ queue) degrees visited = none
kahn deps (suc fuel) (node ∷ queue) degrees visited =
    let next = relax (neighbors deps node) queue degrees in
    kahn deps fuel next.0 next.1 (suc visited)

abbrev pub roots_of : Degrees → List String → List String
roots_of degrees keys = select (λ k. degree degrees k == 0) keys

abbrev pub remaining_of : Degrees → List String → List String
remaining_of degrees keys = select (λ k. ltb 0 (degree degrees k)) keys

abbrev pub judge : List String → Option (ℕ × Degrees) → Exec Unit
judge keys none = raise Error.runtime_error
judge keys (some (visited, degrees)) =
    guard (visited == length keys) (Error.cycle (remaining_of degrees keys))

abbrev pub refuse_missing : List String → DependencySpec → Exec Unit
refuse_missing keys dep = do
  guard (member dep.task_key keys) Error.missing_dependency
  guard (member dep.depends_on_key keys) Error.missing_dependency

unfoldable pub initial_degrees : List String → List DependencySpec → Degrees
unfolding count_degrees
initial_degrees keys deps = count_degrees deps (map zero_degree keys)

unfoldable pub sort_keys : List String → List DependencySpec → Option (ℕ × Degrees)
unfolding initial_degrees kahn
sort_keys keys deps =
    kahn deps (length keys) (roots_of (initial_degrees keys deps) keys) (initial_degrees keys deps)
      0

unfoldable pub detect_cycles : List TaskSpec → List DependencySpec → Exec Unit
unfolding sort_keys
detect_cycles task_specs dependency_specs = do
  for_each (refuse_missing (map key_of task_specs)) dependency_specs
  judge (map key_of task_specs) (sort_keys (map key_of task_specs) dependency_specs)
