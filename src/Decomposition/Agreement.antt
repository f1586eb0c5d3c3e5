-- ===== src/Decomposition/Agreement.antt =====
-- That the worker service takes the graphs that src/zero/app/task_decomposition.py lets through.
use zero_agent_dev_telegram.Common.{
  ◌≡◌, refl, subst, ap, arith, suc, Bool, true, false, not, ◌&&◌, ◌||◌, Option, none, some, String,
  List, [], ◌∷◌, any, all, length, map, ltb, text_eq, strip, is_blank, text_length, strip-IsBlank,
  text_eq_sym, Bool-cases, inl, inr,
}
use zero_agent_dev_telegram.Common.Json.{Json, Items, Fields, none_left, item, get_field}
use zero_agent_dev_telegram.WorkerService.Evidence.{member}
use zero_agent_dev_telegram.WorkerService.Specs.{TaskSpec, has_duplicate}
use zero_agent_dev_telegram.Decomposition.Payload.{
  Language, items_of, raw_text, read_scope, read_evidence, with_lists, is_key, is_objective,
  read_entry, read_entries, cons_spec, spec_key,
}
use zero_agent_dev_telegram.Decomposition.Entries.{
  is_plain, read_scope-fits, read_evidence-fits, is_long_text, is_bad_label,
}

-- The one thing that the validator does not bound.
abbrev pub has_long_key : TaskSpec → Bool
has_long_key spec = ltb 256 (text_length (spec_key spec))

-- A listed task: plain, under a key of its own.
abbrev pub is_listed : List String → TaskSpec → Bool
is_listed seen spec =
    is_plain spec && not (text_eq (spec_key spec) "") && not (member (spec_key spec) seen)

with_lists-IsListed :
    (seen : List String) (key objective : String) (o e : Option (List String)) (spec : TaskSpec)
    → not (text_eq key "") ≡ true
    → is_blank objective ≡ false
    → ltb 8192 (text_length objective) ≡ false
    → not (member key seen) ≡ true
    → ((scope : List String)
        → o ≡ some scope
        → (ltb 64 (length scope) || any is_long_text scope) ≡ false)
    → ((labels : List String)
        → e ≡ some labels
        → (ltb 64 (length labels) || any is_bad_label labels) ≡ false)
    → with_lists key objective o e ≡ some spec
    → (is_listed seen spec ≡ true) × (spec.key ≡ some key)
with_lists-IsListed seen key objective none e spec k b l f p q h = absurd (cc)
with_lists-IsListed seen key objective (some scope) none spec k b l f p q h = absurd (cc)
with_lists-IsListed seen key objective (some scope) (some labels) spec k b l f p q h =
    ground (arith, p scope refl, q labels refl)

read_entry-IsListed :
    (l : Language) (seen : List String) (fields : Fields) (spec : TaskSpec)
    → read_entry l seen fields ≡ some spec
    → (is_listed seen spec ≡ true) × (spec.key ≡ some (spec_key spec))
unfolding read_entry
read_entry-IsListed l seen fields spec h =
    let key = strip (raw_text l "key" fields) in
    let objective = strip (raw_text l "objective" fields) in
    let scope = read_scope l (get_field "scope" fields) in
    let evidence = read_evidence (get_field "evidence" fields) in
    elim (Bool-cases (is_key l key && is_objective objective && not (member key seen))) [
      | inl good ↦
          let (listed, named) =
            with_lists-IsListed seen key objective scope evidence spec (ground (arith, good))
              (strip-IsBlank (raw_text l "objective" fields) (ground (arith, good)))
              (ground (arith, good)) (ground (arith, good))
              (read_scope-fits l (get_field "scope" fields))
              (read_evidence-fits (get_field "evidence" fields)) (ground (arith, good, h)) in
          (listed, ground (arith, named))
      | inr bad ↦ absurd (ground (arith, bad, h))
    ]

abbrev pub has_key : TaskSpec → Bool
has_key spec = not (text_eq (spec_key spec) "")

abbrev pub is_fresh : List String → TaskSpec → Bool
is_fresh seen spec = not (member (spec_key spec) seen)

-- What the first loop over the entries returns.
pub record IsListing (seen : List String) (raw : Items) (specs : List TaskSpec) : Type 0 where
  pub plain : all is_plain specs ≡ true
  pub keyed : all has_key specs ≡ true
  pub fresh : all (is_fresh seen) specs ≡ true
  pub distinct : has_duplicate (map spec_key specs) ≡ false
  pub size : length specs ≡ length (items_of raw)

fresh-narrow :
    (k : String) (seen : List String) (specs : List TaskSpec)
    → all (is_fresh (k ∷ seen)) specs ≡ true
    → (all (is_fresh seen) specs ≡ true) × (member k (map spec_key specs) ≡ false)
fresh-narrow k seen [] h = (refl, refl)
fresh-narrow k seen (spec ∷ specs) h =
    let other : text_eq k (spec_key spec) ≡ false = text_eq_sym (spec_key spec) k (ground arith) in
    ground (arith, fresh-narrow k seen specs, other)

cons-IsListing :
    (seen : List String) (fields : Fields) (rest : Items) (spec : TaskSpec)
    (o : Option (List TaskSpec)) (specs : List TaskSpec)
    → (is_listed seen spec ≡ true) × (spec.key ≡ some (spec_key spec))
    → ((more : List TaskSpec) → o ≡ some more → IsListing (spec_key spec ∷ seen) rest more)
    → cons_spec spec o ≡ some specs
    → IsListing seen (item (Json.object fields) rest) specs
unfolding has_duplicate items_of
cons-IsListing seen fields rest spec none specs first_one others h = absurd (cc)
cons-IsListing seen fields rest spec (some more) specs (listed, named) others h =
    let r = others more refl in
    let (fresh, once) = fresh-narrow (spec_key spec) seen more r.fresh in
    let same : spec ∷ more ≡ specs = ground (arith, h) in
    subst (λ (xs : List TaskSpec). IsListing seen (item (Json.object fields) rest) xs) same
      (record {
        plain = ground (arith, listed, r.plain);
        keyed = ground (arith, listed, r.keyed);
        fresh = ground (arith, listed, fresh);
        distinct = ground (arith, once, r.distinct);
        size = ap suc r.size;
      })

pub read_entries-IsListing :
    (l : Language) (seen : List String) (raw : Items) (specs : List TaskSpec)
    → read_entries l seen raw ≡ some specs
    → IsListing seen raw specs
unfolding read_entries items_of has_duplicate
read_entries-IsListing l seen none_left specs h =
    let same : [] ≡ specs = ground (arith, h) in
    subst (λ (xs : List TaskSpec). IsListing seen none_left xs) same
      (record { plain = refl; keyed = refl; fresh = refl; distinct = refl; size = refl })
read_entries-IsListing l seen (item (Json.object fields) rest) specs h =
    entered (read_entry l seen fields) refl
      (λ spec more e. read_entries-IsListing l (spec_key spec ∷ seen) rest more e) h
  where
    entered :
        (o : Option TaskSpec)
        → read_entry l seen fields ≡ o
        → ((spec : TaskSpec) (more : List TaskSpec)
            → read_entries l (spec_key spec ∷ seen) rest ≡ some more
            → IsListing (spec_key spec ∷ seen) rest more)
        → elim o [
          | none ↦ none
          | some spec ↦ cons_spec spec (read_entries l (spec_key spec ∷ seen) rest)
        ]
          ≡ some specs
        → IsListing seen (item (Json.object fields) rest) specs
    entered none e others h' = absurd (cc)
    entered (some spec) e others h' =
        cons-IsListing seen fields rest spec (read_entries l (spec_key spec ∷ seen) rest) specs
          (read_entry-IsListed l seen fields spec e) (others spec) h'
read_entries-IsListing l seen (item v rest) specs h = absurd (cc)
