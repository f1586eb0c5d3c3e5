-- ===== src/Decomposition/Acceptance.antt =====
-- The verdict of src/zero/app/worker_service.py on a graph of src/zero/app/task_decomposition.py.
use zero_agent_dev_telegram.Common.{
  ◌≡◌, refl, subst, ap, arith, ℕ, ◌≤◌, true, false, not, ◌||◌, Option, none, some, String, List, [],
  ◌∷◌, any, all, length, map, ltb, text_eq, text_length, is_empty, if◌then◌else◌, Bool-cases, inl,
  inr,
}
use zero_agent_dev_telegram.Common.Json.{Json, Items}
use zero_agent_dev_telegram.Domain.Errors.{Error}
use zero_agent_dev_telegram.Database.{World}
use zero_agent_dev_telegram.Exec.{ok, err}
use zero_agent_dev_telegram.WorkerService.Loops.{for_each}
use zero_agent_dev_telegram.WorkerService.Specs.{
  TaskSpec, DependencySpec, key_of, validate_spec, refuse_loop, validate_specs, or_objective,
  is_long_key,
}
use zero_agent_dev_telegram.Decomposition.Payload.{
  Language, items_of, read_entries, spec_key, key_or_empty,
}
use zero_agent_dev_telegram.Decomposition.Validation.{
  Edges, Outcome, max_tasks, read_edges, with_edges, with_specs, validate_tasks,
}
use zero_agent_dev_telegram.Decomposition.Entries.{is_plain}
use zero_agent_dev_telegram.Decomposition.Edges.{is_no_loop, read_edges-IsEdges}
use zero_agent_dev_telegram.Decomposition.Agreement.{
  has_long_key, has_key, IsListing, read_entries-IsListing,
}

-- What stands behind an accepted graph: the listing and its edges.
record IsAccepted (raw : Items) (specs : List TaskSpec) (edges : List DependencySpec) : Type 0 where
  listing : IsListing [] raw specs
  size : (is_empty specs || ltb 256 (length specs)) ≡ false
  few : length edges ≤ 1024
  no_loop : all is_no_loop edges ≡ true

with_edges-accepted :
    (specs specs' : List TaskSpec) (o : Option Edges) (edges : List DependencySpec)
    → with_edges specs o ≡ Outcome.accepted (specs', edges)
    → (specs ≡ specs') × (n : ℕ) × (o ≡ some (edges, n))
with_edges-accepted specs specs' none edges h = absurd (cc)
with_edges-accepted specs specs' (some (es, n)) edges h =
    let same : es ≡ edges = ground (arith, h) in (ground (arith, h), n, ap (λ x. some (x, n)) same)

with_specs-accepted :
    (l : Language) (raw : Items) (o : Option (List TaskSpec)) (specs : List TaskSpec)
    (edges : List DependencySpec)
    → with_specs l raw o ≡ Outcome.accepted (specs, edges)
    → (o ≡ some specs) × (n : ℕ) × (read_edges l (map spec_key specs) raw 0 ≡ some (edges, n))
with_specs-accepted l raw none specs edges h = absurd (cc)
with_specs-accepted l raw (some specs') specs edges h =
    let (same, n, read) =
      with_edges-accepted specs' specs (read_edges l (map spec_key specs') raw 0) edges h in
    (
      ap some same,
      n,
      subst (λ xs. read_edges l (map spec_key xs) raw 0 ≡ some (edges, n)) same read,
    )

validate_tasks-IsAccepted :
    (l : Language) (raw : Items) (specs : List TaskSpec) (edges : List DependencySpec)
    → validate_tasks l raw ≡ Outcome.accepted (specs, edges)
    → IsAccepted raw specs edges
unfolding validate_tasks
validate_tasks-IsAccepted l raw specs edges h =
    elim (Bool-cases (is_empty (items_of raw) || ltb max_tasks (length (items_of raw)))) [
      | inl bad ↦ absurd (ground (arith, bad, h))
      | inr good ↦
          let (read, n, found) =
            with_specs-accepted l raw (read_entries l [] raw) specs edges
              (ground (arith, good, h)) in
          let listing = read_entries-IsListing l [] raw specs read in
          let e = read_edges-IsEdges l (map spec_key specs) raw 0 (edges, n) found in
          record {
            listing = listing;
            size = sized specs (items_of raw) listing.size good;
            few = omega (arith, e.count, e.bounded (omega arith));
            no_loop = e.no_loop;
          }
    ]
  where
    sized :
        (xs : List TaskSpec) (ys : List Json)
        → length xs ≡ length ys
        → (is_empty ys || ltb max_tasks (length ys)) ≡ false
        → (is_empty xs || ltb 256 (length xs)) ≡ false
    sized xs ys e g = ground arith

key_of-same : (spec : TaskSpec) → has_key spec ≡ true → key_of spec ≡ spec_key spec
unfolding key_of
key_of-same spec h = named spec.key h
  where
    named :
        (o : Option String)
        → not (text_eq (key_or_empty o) "") ≡ true
        → or_objective spec.objective o ≡ key_or_empty o
    named none e = absurd (cc)
    named (some key) e = ground arith

long_key-same : (o : Option String) → is_long_key o ≡ ltb 256 (text_length (key_or_empty o))
unfolding text_length
long_key-same none = refl
long_key-same (some key) = refl

keys_of-same :
    (specs : List TaskSpec) → all has_key specs ≡ true → map key_of specs ≡ map spec_key specs
keys_of-same [] h = refl
keys_of-same (spec ∷ specs) h = ground (arith, key_of-same spec, keys_of-same specs)

validate_each :
    (specs : List TaskSpec) (w : World)
    → all is_plain specs ≡ true
    → for_each validate_spec specs w
      ≡ (if any has_long_key specs then (err Error.value_error, w) else (ok tt, w))
unfolding for_each validate_spec
validate_each [] w h = refl
validate_each (spec ∷ specs) w h = ground (arith, long_key-same spec.key, validate_each specs w)

refuse_no_loop :
    (edges : List DependencySpec) (w : World)
    → all is_no_loop edges ≡ true
    → for_each refuse_loop edges w ≡ (ok tt, w)
unfolding for_each
refuse_no_loop [] w h = refl
refuse_no_loop (e ∷ edges) w h = ground (arith, refuse_no_loop edges w)

-- The worker service takes what the decomposer lets through, but for long keys: a graph that the
-- validator accepts passes the checks of sizes, texts, keys and loops in `_validate_specs`, unless
-- a key has more than 256 characters, which the validator does not look at; then it is a ValueError.
pub validate_tasks-accepted :
    (l : Language) (raw : Items) (specs : List TaskSpec) (edges : List DependencySpec) (w : World)
    → validate_tasks l raw ≡ Outcome.accepted (specs, edges)
    → validate_specs specs edges w
      ≡ (if any has_long_key specs then (err Error.value_error, w) else (ok tt, w))
unfolding validate_specs
validate_tasks-accepted l raw specs edges w h =
    let a = validate_tasks-IsAccepted l raw specs edges h in
    ground (
      arith,
      a.size,
      a.few,
      validate_each specs w a.listing.plain,
      refuse_no_loop edges w a.no_loop,
      keys_of-same specs a.listing.keyed,
      a.listing.distinct,
    )
