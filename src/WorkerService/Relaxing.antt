-- ===== src/WorkerService/Relaxing.antt =====
-- What the loop of `_detect_cycles` in src/zero/app/worker_service.py keeps from round to round.
use zero_agent_dev_telegram.Common.{
  ◌≡◌, refl, arith, ◌+◌, ◌≤◌, Bool, true, false, ◌&&◌, ◌||◌, List, [], ◌∷◌, ◌++◌, String, ◌==◌,
  text_eq, eq_iff, select, if◌then◌else◌, any-append, text_eq_sym, ==→eq,
}
use zero_agent_dev_telegram.WorkerService.Evidence.{member}
use zero_agent_dev_telegram.WorkerService.Specs.{
  DependencySpec, Degrees, has_duplicate, degree, lower_degree, neighbors, relax, roots_of,
  initial_degrees,
}
use zero_agent_dev_telegram.WorkerService.Counting.{
  count, into, into_from, with_node, degree-lower_degree, degree-initial_degrees, count-with_node,
}

-- The state of the loop while the neighbours `left` of the last visited key are still to be relaxed:
-- a key waits for the edges from keys that were not seen, and what was seen or queued waits for none.
pub record IsSound (keys : List String) (deps : List DependencySpec) (seen : String → Bool)
    (left queue : List String) (d : Degrees) : Type 0 where
  pub balance :
      (k : String)
      → member k keys ≡ true
      → degree d k + count (into_from seen k) deps
        ≡ count (into k) deps + count (λ t. text_eq t k) left
  pub settled : (k : String) → (seen k || member k queue) ≡ true → degree d k ≡ 0
  pub once : has_duplicate queue ≡ false
  pub unseen : (k : String) → member k queue ≡ true → seen k ≡ false
  pub served :
      (k : String) → member k keys ≡ true → degree d k ≡ 0 → (seen k || member k queue) ≡ true

has_duplicate-append :
    (t : String) (xs : List String)
    → has_duplicate xs ≡ false
    → member t xs ≡ false
    → has_duplicate (xs ++ t ∷ []) ≡ false
unfolding has_duplicate
has_duplicate-append t [] h e = refl
has_duplicate-append t (x ∷ xs) h e =
    ground (arith, any-append (text_eq x) xs (t ∷ []), text_eq_sym t x, has_duplicate-append t xs)

module _ (keys : List String) (deps : List DependencySpec) (seen : String → Bool) where
  count-seen : (k : String) → count (into_from seen k) deps ≤ count (into k) deps
  count-seen k = narrower deps
    where
      narrower : (es : List DependencySpec) → count (into_from seen k) es ≤ count (into k) es
      narrower [] = omega arith
      narrower (e ∷ es) = ground (arith, narrower es)

  enqueued : Degrees → String → List String → List String
  enqueued d t queue = if degree d t == 1 then queue ++ t ∷ [] else queue

  relaxed_once :
      (t : String) (left queue : List String) (d : Degrees)
      → IsSound keys deps seen (t ∷ left) queue d
      → IsSound keys deps seen left (enqueued d t queue) (lower_degree t d)
  unfolding enqueued
  relaxed_once t left queue d s = record {
    balance = λ k h.
        ground (arith, degree-lower_degree t k d, s.balance k h, count-seen k, (eq_iff t k).0);
    settled = λ k h. ground (
      arith,
      degree-lower_degree t k d,
      s.settled k,
      any-append (text_eq k) queue (t ∷ []),
      (eq_iff k t).0,
      (eq_iff t k).1,
    );
    once = ground (arith, s.once, has_duplicate-append t queue, s.settled t);
    unseen = λ k h.
        ground
          (arith, s.unseen k, s.settled k, any-append (text_eq k) queue (t ∷ []), (eq_iff k t).0);
    served = λ k h e. ground (
      arith,
      degree-lower_degree t k d,
      s.served k h,
      any-append (text_eq k) queue (t ∷ []),
      (eq_iff t k).0,
      (eq_iff k t).1,
    );
  }

  pub relax-IsSound :
      (left queue : List String) (d : Degrees)
      → IsSound keys deps seen left queue d
      → IsSound keys deps seen [] (relax left queue d).0 (relax left queue d).1
  unfolding relax enqueued
  relax-IsSound [] queue d s = s
  relax-IsSound (t ∷ left) queue d s =
      relax-IsSound left (enqueued d t queue) (lower_degree t d) (relaxed_once t left queue d s)

-- The visit of a queued key.
pub taken-IsSound :
    (keys : List String) (deps : List DependencySpec) (seen : String → Bool) (node : String)
    (queue : List String) (d : Degrees)
    → IsSound keys deps seen [] (node ∷ queue) d
    → IsSound keys deps (with_node node seen) (neighbors deps node) queue d
unfolding has_duplicate
taken-IsSound keys deps seen node queue d s =
    let first_unseen : seen node ≡ false = s.unseen node (ground (arith, (eq_iff node node).1)) in
    record {
      balance = λ k h. ground (arith, s.balance k h, count-with_node k node seen deps first_unseen);
      settled = λ k h. ground (arith, s.settled k);
      once = ground (arith, s.once);
      unseen = λ k h. ground (arith, s.unseen k, s.once, (eq_iff k node).0, (eq_iff node node).1);
      served = λ k h e. ground (arith, s.served k h e);
    }

unfoldable pub nobody : String → Bool
nobody x = false

count-nobody : (k : String) (deps : List DependencySpec) → count (into_from nobody k) deps ≡ 0
unfolding nobody
count-nobody k [] = refl
count-nobody k (e ∷ deps) = ground (arith, count-nobody k deps)

module _ (p : String → Bool) where
  pub member-select :
      (k : String) (xs : List String) → member k (select p xs) ≡ (member k xs && p k)
  unfolding select
  member-select k [] = refl
  member-select k (x ∷ xs) = ground (arith, member-select k xs, (eq_iff k x).0)

  select-has_duplicate :
      (xs : List String) → has_duplicate xs ≡ false → has_duplicate (select p xs) ≡ false
  unfolding select has_duplicate
  select-has_duplicate [] h = refl
  select-has_duplicate (x ∷ xs) h = ground (arith, member-select x xs, select-has_duplicate xs)

pub start-IsSound :
    (keys : List String) (deps : List DependencySpec)
    → has_duplicate keys ≡ false
    → IsSound keys deps nobody []
        (roots_of (initial_degrees keys deps) keys)
        (initial_degrees keys deps)
unfolding nobody
start-IsSound keys deps distinct =
    let d = initial_degrees keys deps in
    let root : String → Bool = λ k. degree d k == 0 in
    record {
      balance = λ k h. ground (arith, degree-initial_degrees k keys deps h, count-nobody k deps);
      settled = λ k h. ==→eq (degree d k) 0 (ground (arith, member-select root k keys));
      once = select-has_duplicate root keys distinct;
      unseen = λ k h. refl;
      served = λ k h e. ground (arith, member-select root k keys, h, e);
    }
