-- ===== src/WorkerService/Sorting.antt =====
-- The loop of `_detect_cycles` in src/zero/app/worker_service.py ends, and accounts for every key.
use zero_agent_dev_telegram.Common.{
  ◌≡◌, refl, ◌∙◌, subst, arith, ap, ℕ, zero, suc, ◌+◌, ◌≤◌, Bool, true, false, some, List, [], ◌∷◌,
  ◌++◌, String, ◌==◌, ltb, text_eq, eq_iff, length, length-append, select, map, if◌then◌else◌,
}
use zero_agent_dev_telegram.WorkerService.Evidence.{member}
use zero_agent_dev_telegram.WorkerService.Specs.{
  DependencySpec, Degrees, has_duplicate, degree, raise_degree, lower_degree, count_degrees,
  zero_degree, neighbors, relax, kahn, roots_of, remaining_of, initial_degrees, sort_keys,
}

-- The keys that still wait for something.
pub positives : Degrees → ℕ
positives [] = 0
positives ((key, n) ∷ rest) = let more = positives rest in if ltb 0 n then suc more else more

abbrev one_if : Bool → ℕ
one_if true = 1
one_if false = 0

lower_degree-positives :
    (k : String) (d : Degrees)
    → positives (lower_degree k d) + one_if (degree d k == 1) ≡ positives d
unfolding lower_degree degree positives
lower_degree-positives k [] = refl
lower_degree-positives k ((key, n) ∷ rest) = ground (arith, lower_degree-positives k rest)

pub relax-balance :
    (ns queue : List String) (d : Degrees)
    → length (relax ns queue d).0 + positives (relax ns queue d).1 ≡ length queue + positives d
unfolding relax
relax-balance [] queue d = refl
relax-balance (n ∷ ns) queue d = ground (
  arith,
  lower_degree-positives n d,
  length-append queue (n ∷ []),
  relax-balance ns (if degree d n == 1 then queue ++ n ∷ [] else queue) (lower_degree n d),
)

abbrev pub keys_of : Degrees → List String
keys_of [] = []
keys_of ((key, n) ∷ rest) = key ∷ keys_of rest

lower_degree-keys : (k : String) (d : Degrees) → keys_of (lower_degree k d) ≡ keys_of d
unfolding lower_degree
lower_degree-keys k [] = refl
lower_degree-keys k ((key, n) ∷ rest) = ground (arith, lower_degree-keys k rest)

pub raise_degree-keys : (k : String) (d : Degrees) → keys_of (raise_degree k d) ≡ keys_of d
unfolding raise_degree
raise_degree-keys k [] = refl
raise_degree-keys k ((key, n) ∷ rest) = ground (arith, raise_degree-keys k rest)

relax-keys : (ns queue : List String) (d : Degrees) → keys_of (relax ns queue d).1 ≡ keys_of d
unfolding relax
relax-keys [] queue d = refl
relax-keys (n ∷ ns) queue d =
    relax-keys ns (if degree d n == 1 then queue ++ n ∷ [] else queue) (lower_degree n d)
    ∙ lower_degree-keys n d

count_degrees-keys :
    (deps : List DependencySpec) (d : Degrees) → keys_of (count_degrees deps d) ≡ keys_of d
unfolding count_degrees
count_degrees-keys [] d = refl
count_degrees-keys (dep ∷ deps) d =
    count_degrees-keys deps (raise_degree dep.task_key d) ∙ raise_degree-keys dep.task_key d

pub zero_degrees-keys : (keys : List String) → keys_of (map zero_degree keys) ≡ keys
zero_degrees-keys [] = refl
zero_degrees-keys (k ∷ keys) = ap (λ ks. k ∷ ks) (zero_degrees-keys keys)

pub initial_degrees-keys :
    (keys : List String) (deps : List DependencySpec) → keys_of (initial_degrees keys deps) ≡ keys
unfolding initial_degrees
initial_degrees-keys keys deps =
    count_degrees-keys deps (map zero_degree keys) ∙ zero_degrees-keys keys

-- A key that stands further down is found there.
length-select-further :
    (f : ℕ → Bool) (key : String) (n : ℕ) (d : Degrees) (ks : List String)
    → member key ks ≡ false
    → length (select (λ k. f (degree ((key, n) ∷ d) k)) ks)
      ≡ length (select (λ k. f (degree d k)) ks)
unfolding select degree
length-select-further f key n d [] other = refl
length-select-further f key n d (k ∷ ks) other =
    let elsewhere : text_eq key k ≡ false = ground arith in
    rw elsewhere (
      length-select-both (f (degree d k)) k (select (λ x. f (degree ((key, n) ∷ d) x)) ks)
        (select (λ x. f (degree d x)) ks) (length-select-further f key n d ks (ground arith)))
  where
    length-select-both :
        (b : Bool) (k : String) (xs ys : List String)
        → length xs ≡ length ys
        → length (if b then k ∷ xs else xs) ≡ length (if b then k ∷ ys else ys)
    length-select-both true k xs ys h = ap suc h
    length-select-both false k xs ys h = h

text_eq_refl : (k : String) → text_eq k k ≡ true
text_eq_refl k = (eq_iff k k).1 refl

pub length-remaining_of :
    (d : Degrees)
    → has_duplicate (keys_of d) ≡ false
    → length (remaining_of d (keys_of d)) ≡ positives d
unfolding positives has_duplicate select degree
length-remaining_of [] h = refl
length-remaining_of ((key, n) ∷ d) h =
    let further = length-select-further (λ m. ltb 0 m) key n d (keys_of d) (ground arith) in
    let rest = length-remaining_of d (ground arith) in
    rw (text_eq_refl key) (ground (arith, further, rest))

pub length-roots_of :
    (d : Degrees)
    → has_duplicate (keys_of d) ≡ false
    → length (roots_of d (keys_of d)) + positives d ≡ length (keys_of d)
unfolding positives has_duplicate select degree
length-roots_of [] h = omega arith
length-roots_of ((key, n) ∷ d) h =
    let further = length-select-further (λ m. m == 0) key n d (keys_of d) (ground arith) in
    let rest = length-roots_of d (ground arith) in
    rw (text_eq_refl key) (ground (arith, further, rest))

-- With fuel for each waiting key, the loop ends, and what it has visited and what is left waiting
-- are all that there was.
pub kahn-balance :
    (deps : List DependencySpec) (fuel : ℕ) (queue : List String) (d : Degrees) (visited : ℕ)
    → length queue + positives d ≤ fuel
    → (v : ℕ) × (d' : Degrees) × (kahn deps fuel queue d visited ≡ some (v, d'))
      × (v + positives d' ≡ visited + (length queue + positives d))
      × (keys_of d' ≡ keys_of d)
unfolding kahn
kahn-balance deps fuel [] d visited h = (visited, d, refl, omega arith, refl)
kahn-balance deps zero (node ∷ queue) d visited h = absurd (omega arith)
kahn-balance deps (suc fuel) (node ∷ queue) d visited h =
    let balance = relax-balance (neighbors deps node) queue d in
    let (v, d', ends, total, keys) =
      kahn-balance deps fuel (relax (neighbors deps node) queue d).0
        (relax (neighbors deps node) queue d).1 (suc visited) (omega (arith, balance)) in
    (v, d', ends, omega (arith, balance, total), keys ∙ relax-keys (neighbors deps node) queue d)

-- For keys that are distinct, the loop that looks for cycles ends, without running out of fuel, and
-- the keys that it has taken from the queue, with those that the error would name, are all keys: the
-- graph is accepted exactly when no key is left with an edge that waits.
pub sort_keys-accounts :
    (keys : List String) (deps : List DependencySpec)
    → has_duplicate keys ≡ false
    → (visited : ℕ) × (degrees : Degrees) × (sort_keys keys deps ≡ some (visited, degrees))
      × (visited + length (remaining_of degrees keys) ≡ length keys)
unfolding sort_keys
sort_keys-accounts keys deps distinct =
    let start = initial_degrees keys deps in
    let same : keys_of start ≡ keys = initial_degrees-keys keys deps in
    let balanced : length (roots_of start keys) + positives start ≡ length keys =
      subst (λ ks. length (roots_of start ks) + positives start ≡ length ks) same
        (length-roots_of start (rw same distinct)) in
    let (v, d, ends, total, kept) =
      kahn-balance deps (length keys) (roots_of start keys) start 0 (omega (arith, balanced)) in
    let remaining : length (remaining_of d keys) ≡ positives d =
      subst (λ ks. length (remaining_of d ks) ≡ positives d) (kept ∙ same)
        (length-remaining_of d (rw (kept, same) distinct)) in
    (v, d, ends, omega (arith, total, balanced, remaining))
