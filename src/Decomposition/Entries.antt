-- ===== src/Decomposition/Entries.antt =====
-- What src/zero/app/task_decomposition.py lets through into a task: texts and lists within the limits of
-- the worker service.
use zero_agent_dev_telegram.Common.{
  ◌≡◌, refl, arith, suc, ◌≤◌, Bool, true, false, not, ◌&&◌, ◌||◌, Option, none, some, String, List,
  [], ◌∷◌, any, length, select, ltb, text_eq, eq_iff, strip, is_blank, text_length,
  text_take-length, Bool-cases, inl, inr,
}
use zero_agent_dev_telegram.Common.Json.{Json}
use zero_agent_dev_telegram.Repository.Plan.{take}
use zero_agent_dev_telegram.WorkerService.Evidence.{member}
use zero_agent_dev_telegram.WorkerService.Specs.{TaskSpec}
use zero_agent_dev_telegram.Scheduler.Bounds.{length-take}
use zero_agent_dev_telegram.Decomposition.Payload.{
  Language, supported_evidence_labels, items_of, to_text, clean_scope, cons_label, kept, read_scope,
  clean_evidence, keep_first, read_evidence,
}

abbrev pub is_long_text : String → Bool
is_long_text s = ltb 1024 (text_length s)

abbrev pub is_bad_label : String → Bool
is_bad_label s = is_blank s || ltb 1024 (text_length s)

-- A specification that the worker service refuses for its key only.
abbrev pub is_plain : TaskSpec → Bool
is_plain spec =
    not (is_blank spec.objective)
    && not (ltb 8192 (text_length spec.objective))
    && not (ltb 64 (length spec.permitted_scope) || any is_long_text spec.permitted_scope)
    && not (ltb 64 (length spec.expected_evidence) || any is_bad_label spec.expected_evidence)

scope-plain :
    (l : Language) (vs : List Json)
    → (length (clean_scope l vs) ≤ length vs) × (any is_long_text (clean_scope l vs) ≡ false)
unfolding clean_scope
scope-plain l [] = (omega arith, refl)
scope-plain l (v ∷ vs) = ground (arith, scope-plain l vs, text_take-length 256 (to_text l v))

member_all :
    (p : String → Bool) (s : String) (xs : List String)
    → any p xs ≡ false
    → member s xs ≡ true
    → p s ≡ false
member_all p s [] h e = absurd (cc)
member_all p s (x ∷ xs) h e = elim (Bool-cases (text_eq s x)) [
  | inl same ↦ rw ((eq_iff s x).0 same) (ground arith)
  | inr other ↦ member_all p s xs (ground arith) (ground (arith, other))
]

evidence-plain :
    (vs : List Json) (labels : List String)
    → clean_evidence vs ≡ some labels
    → (length labels ≤ length vs) × (any is_bad_label labels ≡ false)
unfolding clean_evidence is_blank text_length
evidence-plain [] labels h = ground arith
evidence-plain (Json.str s ∷ vs) labels h =
    cons_plain s (clean_evidence vs) labels (evidence-plain vs) h
  where
    cons_plain :
        (s : String) (o : Option (List String)) (labels : List String)
        → ((ls : List String)
            → o ≡ some ls
            → (length ls ≤ length vs) × (any is_bad_label ls ≡ false))
        → cons_label (strip s) o ≡ some labels
        → (length labels ≤ suc (length vs)) × (any is_bad_label labels ≡ false)
    cons_plain s none labels rest e = absurd (cc)
    cons_plain s (some ls) labels rest e =
        let good = member_all is_bad_label (strip s) supported_evidence_labels refl in
        ground (arith, rest ls refl, good)
evidence-plain (v ∷ vs) labels h = absurd (cc)

keep_first-plain :
    (xs : List String)
    → any is_bad_label xs ≡ false
    → (length (keep_first xs) ≤ length xs) × (any is_bad_label (keep_first xs) ≡ false)
unfolding keep_first select
keep_first-plain [] h = (omega arith, refl)
keep_first-plain (x ∷ xs) h =
    let (short, good) = keep_first-plain xs (ground arith) in
    let (shorter, better) = selected (λ y. not (text_eq y x)) (keep_first xs) good in
    (omega (arith, short, shorter), ground (arith, better))
  where
    selected :
        (q : String → Bool) (ys : List String)
        → any is_bad_label ys ≡ false
        → (length (select q ys) ≤ length ys) × (any is_bad_label (select q ys) ≡ false)
    selected q [] e = (omega arith, refl)
    selected q (y ∷ ys) e = ground (arith, selected q ys)

abbrev fits : List String → List String → Bool
fits scope evidence =
    not (ltb 64 (length scope) || any is_long_text scope)
    && not (ltb 64 (length evidence) || any is_bad_label evidence)

pub read_scope-fits :
    (l : Language) (o : Option Json) (scope : List String)
    → read_scope l o ≡ some scope
    → (ltb 64 (length scope) || any is_long_text scope) ≡ false
unfolding read_scope
read_scope-fits l none scope h = ground arith
read_scope-fits l (some (Json.array items)) scope h =
    ground
      (arith, scope-plain l (take 64 (items_of items)), length-take {A = Json} 64 (items_of items))
read_scope-fits l (some v) scope h = ground arith

pub read_evidence-fits :
    (o : Option Json) (evidence : List String)
    → read_evidence o ≡ some evidence
    → (ltb 64 (length evidence) || any is_bad_label evidence) ≡ false
unfolding read_evidence
read_evidence-fits none evidence h = ground arith
read_evidence-fits (some (Json.array items)) evidence h =
    kept_fits (clean_evidence (take 8 (items_of items))) refl h
  where
    kept_fits :
        (o : Option (List String))
        → clean_evidence (take 8 (items_of items)) ≡ o
        → kept o ≡ some evidence
        → (ltb 64 (length evidence) || any is_bad_label evidence) ≡ false
    kept_fits none e h' = absurd (cc)
    kept_fits (some ls) e h' =
        let (few, good) = evidence-plain (take 8 (items_of items)) ls e in
        let (fewer, better) = keep_first-plain ls good in
        let cap = length-take {A = Json} 8 (items_of items) in
        ground (arith, few, fewer, better, cap)
read_evidence-fits (some v) evidence h = ground arith
