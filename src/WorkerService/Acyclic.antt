-- ===== src/WorkerService/Acyclic.antt =====
-- That the loop of `_detect_cycles` in src/zero/app/worker_service.py lets no cycle through.
use zero_agent_dev_telegram.Common.{
  ◌≡◌, refl, subst, arith, ℕ, zero, suc, ◌+◌, ◌<◌, Bool, true, false, ◌&&◌, some, List, [], ◌∷◌,
  String, ◌==◌, ltb, any, all, eq_iff, length, map, Bool-cases, inl, inr, ◌⊎◌,
}
use zero_agent_dev_telegram.Database.{World}
use zero_agent_dev_telegram.Exec.{ok, err}
use zero_agent_dev_telegram.Domain.Errors.{Error}
use zero_agent_dev_telegram.WorkerService.Loops.{for_each}
use zero_agent_dev_telegram.WorkerService.Evidence.{member}
use zero_agent_dev_telegram.WorkerService.Specs.{
  DependencySpec, Degrees, has_duplicate, degree, neighbors, relax, kahn, roots_of, remaining_of,
  initial_degrees, sort_keys, TaskSpec, key_of, detect_cycles, refuse_missing,
}
use zero_agent_dev_telegram.WorkerService.Sorting.{sort_keys-accounts}
use zero_agent_dev_telegram.WorkerService.Counting.{count, into, into_from, with_node, count-unseen}
use zero_agent_dev_telegram.WorkerService.Relaxing.{
  IsSound, taken-IsSound, start-IsSound, relax-IsSound, nobody, member-select,
}

-- A set of keys each of which waits for one of the set.
pub record IsWaiting (keys : List String) (deps : List DependencySpec) (waits : String → Bool)
    : Type 0 where
  pub among : (k : String) → waits k ≡ true → member k keys ≡ true
  pub waiting : (k : String) → waits k ≡ true → any (into_from waits k) deps ≡ true

module _ (keys : List String) (deps : List DependencySpec) (waits : String → Bool)
    (set : IsWaiting keys deps waits) where
  abbrev Apart : (String → Bool) → Type 0
  Apart seen = (x : String) → waits x ≡ true → seen x ≡ false

  -- What waits for the set has an edge left.
  waits-degree :
      (seen : String → Bool) (queue : List String) (d : Degrees) (k : String)
      → IsSound keys deps seen [] queue d
      → Apart seen
      → waits k ≡ true
      → 0 < degree d k
  waits-degree seen queue d k s apart h =
      let fewer = count-unseen k waits seen deps apart (set.waiting k h) in
      omega (arith, s.balance k (set.among k h), fewer)

  -- However far the loop runs, it visits no key of the set.
  kahn-Apart :
      (fuel : ℕ) (seen : String → Bool) (queue : List String) (d d' : Degrees) (visited v : ℕ)
      → IsSound keys deps seen [] queue d
      → Apart seen
      → kahn deps fuel queue d visited ≡ some (v, d')
      → (k : String) → waits k ≡ true
      → 0 < degree d' k
  unfolding kahn
  kahn-Apart fuel seen [] d d' visited v s apart e k h =
      let same : d ≡ d' = ground (arith, e) in
      subst (λ (x : Degrees). 0 < degree x k) same (waits-degree seen [] d k s apart h)
  kahn-Apart zero seen (node ∷ queue) d d' visited v s apart e k h = absurd (cc)
  kahn-Apart (suc fuel) seen (node ∷ queue) d d' visited v s apart e k h =
      let resting : degree d node ≡ 0 = s.settled node (ground (arith, (eq_iff node node).1)) in
      let outside : waits node ≡ false = elim (Bool-cases (waits node)) [
        | inl inside ↦
            absurd (omega (arith, waits-degree seen (node ∷ queue) d node s apart inside))
        | inr outside ↦ outside
      ] in
      kahn-Apart fuel (with_node node seen) (relax (neighbors deps node) queue d).0
        (relax (neighbors deps node) queue d).1 d' (suc visited) v
        (relax-IsSound keys deps (with_node node seen) (neighbors deps node) queue d
          (taken-IsSound keys deps seen node queue d s))
        (λ x inside. ground (arith, apart x inside, outside, (eq_iff x node).0)) e k h

length-of_member : (k : String) (xs : List String) → member k xs ≡ true → 0 < length xs
length-of_member k [] h = absurd (cc)
length-of_member k (x ∷ xs) h = omega arith

abbrev pub are_keys : List String → DependencySpec → Bool
are_keys keys e = member e.task_key keys && member e.depends_on_key keys

refuse_missing-passes :
    (keys : List String) (deps : List DependencySpec) (w : World)
    → all (are_keys keys) deps ≡ true
    → for_each (refuse_missing keys) deps w ≡ (ok tt, w)
unfolding for_each
refuse_missing-passes keys [] w h = refl
refuse_missing-passes keys (e ∷ deps) w h = ground (arith, refuse_missing-passes keys deps w)

-- What the loop ends with, and that every key of a waiting set is among what it leaves.
sort_keys-leaves :
    (keys : List String) (deps : List DependencySpec) (waits : String → Bool) (k : String)
    → has_duplicate keys ≡ false
    → IsWaiting keys deps waits
    → waits k ≡ true
    → (v : ℕ) × (d : Degrees) × (sort_keys keys deps ≡ some (v, d))
      × (v + length (remaining_of d keys) ≡ length keys)
      × (member k (remaining_of d keys) ≡ true)
unfolding sort_keys nobody
sort_keys-leaves keys deps waits k distinct set inside =
    let (v, d, ends, total) = sort_keys-accounts keys deps distinct in
    let held =
      kahn-Apart keys deps waits set (length keys) nobody
        (roots_of (initial_degrees keys deps) keys) (initial_degrees keys deps) d 0 v
        (start-IsSound keys deps distinct) (λ x h. refl) ends k inside in
    (
      v,
      d,
      ends,
      total,
      ground (arith, member-select (λ x. ltb 0 (degree d x)) k keys, set.among k inside, held),
    )

-- No cycle passes: for tasks with distinct keys and edges between them, `_detect_cycles` refuses a
-- graph with a set of keys in which each has an edge from another of the set or from itself, so that
-- none could ever start; the error names each key of the set, and nothing is written.
pub detect_cycles-names_cycle :
    (specs : List TaskSpec) (deps : List DependencySpec) (waits : String → Bool) (k : String)
    (w : World)
    → has_duplicate (map key_of specs) ≡ false
    → all (are_keys (map key_of specs)) deps ≡ true
    → IsWaiting (map key_of specs) deps waits
    → waits k ≡ true
    → (named : List String) × (detect_cycles specs deps w ≡ (err (Error.cycle named), w))
      × (member k named ≡ true)
unfolding detect_cycles
detect_cycles-names_cycle specs deps waits k w distinct present set inside =
    let keys = map key_of specs in
    let (v, d, ends, total, named) = sort_keys-leaves keys deps waits k distinct set inside in
    let left = length-of_member k (remaining_of d keys) named in
    let fewer : (v == length keys) ≡ false = ground (arith, total, left) in
    (remaining_of d keys, rw (refuse_missing-passes keys deps w present, ends, fewer) refl, named)

-- Where the loop ends, it was sound all along.
kahn-IsSound :
    (keys : List String) (deps : List DependencySpec) (fuel : ℕ) (seen : String → Bool)
    (queue : List String) (d d' : Degrees) (visited v : ℕ)
    → IsSound keys deps seen [] queue d
    → kahn deps fuel queue d visited ≡ some (v, d')
    → (seen' : String → Bool) × IsSound keys deps seen' [] [] d'
unfolding kahn
kahn-IsSound keys deps fuel seen [] d d' visited v s e =
    let same : d ≡ d' = ground (arith, e) in
    (seen, subst (λ (x : Degrees). IsSound keys deps seen [] [] x) same s)
kahn-IsSound keys deps zero seen (node ∷ queue) d d' visited v s e = absurd (cc)
kahn-IsSound keys deps (suc fuel) seen (node ∷ queue) d d' visited v s e =
    kahn-IsSound keys deps fuel (with_node node seen) (relax (neighbors deps node) queue d).0
      (relax (neighbors deps node) queue d).1 d' (suc visited) v
      (relax-IsSound keys deps (with_node node seen) (neighbors deps node) queue d
        (taken-IsSound keys deps seen node queue d s))
      e

-- A key with more edges into it than come from what was seen has one from what is left.
unseen-source :
    (keys : List String) (k : String) (seen left : String → Bool) (deps : List DependencySpec)
    → ((x : String) → member x keys ≡ true → seen x ≡ false → left x ≡ true)
    → all (are_keys keys) deps ≡ true
    → count (into_from seen k) deps < count (into k) deps
    → any (into_from left k) deps ≡ true
unseen-source keys k seen left [] rest present fewer = absurd (omega arith)
unseen-source keys k seen left (e ∷ deps) rest present fewer =
    ground (arith, rest e.depends_on_key, unseen-source keys k seen left deps rest)

left-IsWaiting :
    (keys : List String) (deps : List DependencySpec) (seen : String → Bool) (d : Degrees)
    → all (are_keys keys) deps ≡ true
    → IsSound keys deps seen [] [] d
    → IsWaiting keys deps (λ x. member x (remaining_of d keys))
left-IsWaiting keys deps seen d present s =
    let waits : String → Bool = λ x. ltb 0 (degree d x) in
    record {
      among = λ k h. ground (arith, member-select waits k keys, h);
      waiting = λ k h.
          let here : member k keys ≡ true = ground (arith, member-select waits k keys, h) in
          let more : 0 < degree d k = ground (arith, member-select waits k keys, h) in
          unseen-source keys k seen (λ x. member x (remaining_of d keys)) deps
            (λ x known fresh. ground (arith, member-select waits x keys, s.served x known)) present
            (omega (arith, s.balance k here, more));
    }

-- Only cycles are refused: for tasks with distinct keys and edges between them, `_detect_cycles` lets
-- the graph through, or it raises the error with a set of keys, not empty, in which each has an edge
-- from another of the set or from itself. Nothing is written.
pub detect_cycles-decides :
    (specs : List TaskSpec) (deps : List DependencySpec) (w : World)
    → has_duplicate (map key_of specs) ≡ false
    → all (are_keys (map key_of specs)) deps ≡ true
    → (detect_cycles specs deps w ≡ (ok tt, w))
      ⊎ ((named : List String) × (detect_cycles specs deps w ≡ (err (Error.cycle named), w))
          × IsWaiting (map key_of specs) deps (λ x. member x named)
          × (0 < length named))
unfolding detect_cycles sort_keys nobody
detect_cycles-decides specs deps w distinct present =
    let keys = map key_of specs in
    let (v, d, ends, total) = sort_keys-accounts keys deps distinct in
    elim (Bool-cases (v == length keys)) [
      | inl whole ↦ inl (rw (refuse_missing-passes keys deps w present, ends, whole) refl)
      | inr some_left ↦
          let (seen, sound) =
            kahn-IsSound keys deps (length keys) nobody (roots_of (initial_degrees keys deps) keys)
              (initial_degrees keys deps) d 0 v (start-IsSound keys deps distinct) ends in
          inr (
            remaining_of d keys,
            rw (refuse_missing-passes keys deps w present, ends, some_left) refl,
            left-IsWaiting keys deps seen d present sound,
            ground (arith, total, some_left),
          )
    ]
