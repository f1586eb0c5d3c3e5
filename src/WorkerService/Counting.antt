-- ===== src/WorkerService/Counting.antt =====
-- The in-degrees of `_detect_cycles` in src/zero/app/worker_service.py as counts of edges.
use zero_agent_dev_telegram.Common.{
  ◌≡◌, refl, arith, ℕ, suc, ◌+◌, ◌-◌, ◌≤◌, ◌<◌, Bool, true, false, ◌&&◌, ◌||◌, List, [], ◌∷◌,
  String, any, text_eq, eq_iff, select, map, if◌then◌else◌,
}
use zero_agent_dev_telegram.WorkerService.Evidence.{member}
use zero_agent_dev_telegram.WorkerService.Specs.{
  DependencySpec, Degrees, degree, raise_degree, lower_degree, count_degrees, zero_degree,
  neighbors, initial_degrees,
}
use zero_agent_dev_telegram.WorkerService.Sorting.{keys_of, raise_degree-keys, zero_degrees-keys}

abbrev pub count {ℓ} : {A : Type ℓ} → (A → Bool) → List A → ℕ
count p [] = 0
count p (x ∷ xs) = let rest = count p xs in if p x then suc rest else rest

-- The edges into a key, and those of them that come from a given set.
abbrev pub into : String → DependencySpec → Bool
into k e = text_eq e.task_key k

abbrev pub into_from : (String → Bool) → String → DependencySpec → Bool
into_from seen k e = text_eq e.task_key k && seen e.depends_on_key

abbrev pub with_node : String → (String → Bool) → String → Bool
with_node node seen x = seen x || text_eq x node

pub degree-lower_degree :
    (n k : String) (d : Degrees)
    → degree (lower_degree n d) k ≡ (if text_eq n k then degree d k - 1 else degree d k)
unfolding degree lower_degree
degree-lower_degree n k [] = ground arith
degree-lower_degree n k ((key, m) ∷ d) = ground (
  arith,
  degree-lower_degree n k d,
  (eq_iff key n).0,
  (eq_iff key k).0,
  (eq_iff n k).0,
  (eq_iff key k).1,
  (eq_iff n k).1,
)

degree-raise_degree :
    (n k : String) (d : Degrees)
    → member k (keys_of d) ≡ true
    → degree (raise_degree n d) k ≡ (if text_eq n k then suc (degree d k) else degree d k)
unfolding degree raise_degree
degree-raise_degree n k [] h = absurd (cc)
degree-raise_degree n k ((key, m) ∷ d) h = ground (
  arith,
  degree-raise_degree n k d,
  (eq_iff key n).0,
  (eq_iff key k).0,
  (eq_iff n k).0,
  (eq_iff key k).1,
  (eq_iff n k).1,
  (eq_iff k key).0,
)

degree-count_degrees :
    (k : String) (deps : List DependencySpec) (d : Degrees)
    → member k (keys_of d) ≡ true
    → degree (count_degrees deps d) k ≡ degree d k + count (into k) deps
unfolding count_degrees
degree-count_degrees k [] d h = omega arith
degree-count_degrees k (e ∷ deps) d h =
    let still : member k (keys_of (raise_degree e.task_key d)) ≡ true =
      rw (raise_degree-keys e.task_key d) h in
    ground (
      arith,
      degree-count_degrees k deps (raise_degree e.task_key d) still,
      degree-raise_degree e.task_key k d h,
    )

degree-zeros : (k : String) (keys : List String) → degree (map zero_degree keys) k ≡ 0
unfolding degree
degree-zeros k [] = refl
degree-zeros k (x ∷ keys) = ground (arith, degree-zeros k keys)

-- At the start a key has as many edges to wait for as there are edges into it.
pub degree-initial_degrees :
    (k : String) (keys : List String) (deps : List DependencySpec)
    → member k keys ≡ true
    → degree (initial_degrees keys deps) k ≡ count (into k) deps
unfolding initial_degrees
degree-initial_degrees k keys deps h = ground (
  arith,
  degree-count_degrees k deps (map zero_degree keys) (rw (zero_degrees-keys keys) h),
  degree-zeros k keys,
)

-- A visit of a node that was not seen adds the edges from it.
pub count-with_node :
    (k node : String) (seen : String → Bool) (deps : List DependencySpec)
    → seen node ≡ false
    → count (into_from (with_node node seen) k) deps
      ≡ count (into_from seen k) deps + count (λ t. text_eq t k) (neighbors deps node)
unfolding neighbors select
count-with_node k node seen [] h = refl
count-with_node k node seen (e ∷ deps) h =
    ground (arith, count-with_node k node seen deps h, (eq_iff e.depends_on_key node).0)

-- While a source of an edge into a key is not seen, fewer edges come from what is seen.
pub count-unseen :
    (k : String) (waits seen : String → Bool) (deps : List DependencySpec)
    → ((x : String) → waits x ≡ true → seen x ≡ false)
    → any (into_from waits k) deps ≡ true
    → count (into_from seen k) deps < count (into k) deps
count-unseen k waits seen [] apart h = absurd (cc)
count-unseen k waits seen (e ∷ deps) apart h = ground (
  arith,
  count-unseen k waits seen deps apart,
  apart e.depends_on_key,
  count_mono (into_from seen k) (into k) deps (λ x y. ground arith),
)
  where
    count_mono :
        (p q : DependencySpec → Bool) (xs : List DependencySpec)
        → ((x : DependencySpec) → p x ≡ true → q x ≡ true)
        → count p xs ≤ count q xs
    count_mono p q [] sub = omega arith
    count_mono p q (x ∷ xs) sub = ground (arith, sub x, count_mono p q xs sub)
