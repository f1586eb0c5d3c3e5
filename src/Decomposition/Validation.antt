-- ===== src/Decomposition/Validation.antt =====
-- `validate_decomposition` of src/zero/app/task_decomposition.py: the edges between the listed tasks,
-- the search for a cycle, and the graph or its refusal. A key that stands in the answer with white
-- space around it is listed without it and looked up with it, which raises a KeyError.
use zero_agent_dev_telegram.Common.{
  ℕ, zero, suc, Bool, true, not, ◌||◌, Option, none, some, String, List, [], ◌∷◌, ◌++◌, ◌==◌, ltb,
  any, length, is_empty, map, text_eq, strip, is_blank, if◌then◌else◌,
}
use zero_agent_dev_telegram.Common.Json.{Json, Items, none_left, item, get_field}
use zero_agent_dev_telegram.Repository.Plan.{take}
use zero_agent_dev_telegram.WorkerService.Evidence.{member}
use zero_agent_dev_telegram.WorkerService.Specs.{
  TaskSpec, DependencySpec, Degrees, neighbors, relax, roots_of, initial_degrees,
}
use zero_agent_dev_telegram.Decomposition.Payload.{
  Language, items_of, to_text, raw_text, spec_key, read_entries,
}

abbrev pub max_tasks : ℕ
max_tasks = 256

abbrev pub max_edges : ℕ
max_edges = 1024

abbrev pub DecompositionGraph : Type 0
DecompositionGraph = List TaskSpec × List DependencySpec

-- `ready.pop()`: the last key, and those before it.
unfoldable pub pop : String → List String → List String × String
pop k [] = ([], k)
pop k (j ∷ rest) = let others = pop j rest in (k ∷ others.0, others.1)

-- The loop of `_has_cycle`, which counts the keys that it visits; `none` is fuel that ran out.
unfoldable pub visit : List DependencySpec → ℕ → List String → Degrees → ℕ → Option ℕ
unfolding relax neighbors pop
visit edges fuel [] degrees visited = some visited
visit edges zero (k ∷ ready) degrees visited = none
visit edges (suc fuel) (k ∷ ready) degrees visited =
    let popped = pop k ready in
    let next = relax (neighbors edges popped.1) popped.0 degrees in
    visit edges fuel next.0 next.1 (suc visited)

abbrev differs : ℕ → Option ℕ → Bool
differs n none = true
differs n (some visited) = not (visited == n)

unfoldable pub has_cycle : List String → List DependencySpec → Bool
unfolding visit initial_degrees
has_cycle order edges = differs (length order) (
    visit edges (length order) (roots_of (initial_degrees order edges) order)
      (initial_degrees order edges) 0)

-- What the validator does with an answer: `None`, a KeyError, or a graph.
pub data Outcome : Type 0 where
  refused : Outcome
  key_error : Outcome
  accepted : DecompositionGraph → Outcome

abbrev pub Edges : Type 0
Edges = List DependencySpec × ℕ

abbrev pub cons_edge : DependencySpec → Option Edges → Option Edges
cons_edge edge none = none
cons_edge edge (some (edges, n)) = some (edge ∷ edges, n)

module _ (l : Language) (keys_seen : List String) where
  -- The inner loop: the first 64 dependencies of a task, behind `edge_count` edges.
  unfoldable pub read_dependencies : String → List Json → ℕ → Option Edges
  read_dependencies task_key [] edge_count = some ([], edge_count)
  read_dependencies task_key (v ∷ rest) edge_count =
      let dep_key = strip (to_text l v) in
      let others = read_dependencies task_key rest (suc edge_count) in
      if not (member dep_key keys_seen)
        || text_eq dep_key task_key
        || ltb max_edges (suc edge_count)
      then none
      else cons_edge (record { task_key = task_key; depends_on_key = dep_key }) others

  -- `raw_depends[:64]`, where None is no dependency and what is no list is refused.
  unfoldable pub depends_of : Option Json → Option (List Json)
  unfolding items_of
  depends_of none = some []
  depends_of (some Json.null) = some []
  depends_of (some (Json.array items)) = some (take 64 (items_of items))
  depends_of (some v) = none

  abbrev pub append_edges : List DependencySpec → Option Edges → Option Edges
  append_edges edges none = none
  append_edges edges (some (more, n)) = some (edges ++ more, n)

  abbrev pub depends_or_refuse : String → Option (List Json) → ℕ → Option Edges
  depends_or_refuse task_key none edge_count = none
  depends_or_refuse task_key (some vs) edge_count = read_dependencies task_key vs edge_count

  -- The second loop over the entries.
  unfoldable pub read_edges : Items → ℕ → Option Edges
  unfolding read_dependencies depends_of
  read_edges none_left edge_count = some ([], edge_count)
  read_edges (item (Json.object fields) rest) edge_count =
      elim (depends_or_refuse (raw_text l "key" fields) (depends_of (get_field "depends_on" fields))
        edge_count) [ none ↦ none | some found ↦ append_edges found.0 (read_edges rest found.1) ]
  read_edges (item v rest) edge_count = none

abbrev judge_edges : List TaskSpec → List DependencySpec → Outcome
judge_edges specs edges =
    let order = map spec_key specs in
    if any (λ e. not (member e.task_key order)) edges
    then Outcome.key_error
    else if has_cycle order edges
    then Outcome.refused
    else Outcome.accepted (specs, edges)

abbrev pub with_edges : List TaskSpec → Option Edges → Outcome
with_edges specs none = Outcome.refused
with_edges specs (some (edges, n)) = judge_edges specs edges

abbrev pub with_specs : Language → Items → Option (List TaskSpec) → Outcome
with_specs l raw none = Outcome.refused
with_specs l raw (some specs) = with_edges specs (read_edges l (map spec_key specs) raw 0)

unfoldable pub validate_tasks : Language → Items → Outcome
unfolding read_entries read_edges has_cycle items_of
validate_tasks l raw =
    if is_empty (items_of raw) || ltb max_tasks (length (items_of raw))
    then Outcome.refused
    else with_specs l raw (read_entries l [] raw)

abbrev parsed : Language → Option Json → Outcome
parsed l (some (Json.array items)) = validate_tasks l items
parsed l v = Outcome.refused

-- The whole text: its length in bytes and the parsed answer, code fence stripped, are given.
unfoldable pub validate_decomposition :
    Language → (String → ℕ) → (String → Option Json) → String → Outcome
unfolding validate_tasks
validate_decomposition l byte_length load payload_text =
    if is_blank payload_text || ltb 65536 (byte_length payload_text)
    then Outcome.refused
    else parsed l (load payload_text)
