-- ===== src/Decomposition/Edges.antt =====
-- The edges that src/zero/app/task_decomposition.py reads from an answer: within the limit, no loops.
use zero_agent_dev_telegram.Common.{
  ◌≡◌, refl, subst, arith, ℕ, suc, ◌+◌, ◌≤◌, Bool, true, not, ◌||◌, Option, none, some, String,
  List, [], ◌∷◌, ◌++◌, all, length, length-append, ltb, text_eq, strip, text_eq_sym, Bool-cases,
  inl, inr,
}
use zero_agent_dev_telegram.Common.Json.{Json, Items, none_left, item, get_field}
use zero_agent_dev_telegram.WorkerService.Evidence.{member}
use zero_agent_dev_telegram.WorkerService.Specs.{DependencySpec}
use zero_agent_dev_telegram.Decomposition.Payload.{Language, to_text, raw_text}
use zero_agent_dev_telegram.Decomposition.Validation.{
  Edges, max_edges, cons_edge, append_edges, depends_of, depends_or_refuse, read_dependencies,
  read_edges,
}

abbrev pub is_no_loop : DependencySpec → Bool
is_no_loop e = not (text_eq e.task_key e.depends_on_key)

-- The edges that are read behind n others.
pub record IsEdges (n : ℕ) (found : Edges) : Type 0 where
  pub count : found.1 ≡ n + length found.0
  pub bounded : n ≤ max_edges → found.1 ≤ max_edges
  pub no_loop : all is_no_loop found.0 ≡ true

cons_edge-IsEdges :
    (n : ℕ) (edge : DependencySpec) (o : Option Edges) (found : Edges)
    → suc n ≤ max_edges
    → is_no_loop edge ≡ true
    → ((more : Edges) → o ≡ some more → IsEdges (suc n) more)
    → cons_edge edge o ≡ some found
    → IsEdges n found
cons_edge-IsEdges n edge none found few loop others h = absurd (cc)
cons_edge-IsEdges n edge (some (edges, m)) found few loop others h =
    let r = others (edges, m) refl in
    let same : (edge ∷ edges, m) ≡ found = ground (arith, h) in
    subst (IsEdges n) same (record {
      count = omega (arith, r.count);
      bounded = λ fits. r.bounded few;
      no_loop = ground (arith, loop, r.no_loop);
    })

module _ (l : Language) (keys : List String) where
  read_dependencies-IsEdges :
      (task_key : String) (vs : List Json) (n : ℕ) (found : Edges)
      → read_dependencies l keys task_key vs n ≡ some found
      → IsEdges n found
  unfolding read_dependencies
  read_dependencies-IsEdges task_key [] n found h =
      subst (IsEdges n) (some-injective ([], n) found h)
        (record { count = omega arith; bounded = λ fits. fits; no_loop = refl })
    where
      some-injective : (a b : Edges) → some a ≡ some b → a ≡ b
      some-injective a b e = ground arith
  read_dependencies-IsEdges task_key (v ∷ vs) n found h =
      elim (Bool-cases (
        not (member (strip (to_text l v)) keys)
        || text_eq (strip (to_text l v)) task_key
        || ltb max_edges (suc n))) [
          | inl bad ↦ absurd (ground (arith, bad, h))
          | inr good ↦
              cons_edge-IsEdges n
                (record { task_key = task_key; depends_on_key = strip (to_text l v) })
                (read_dependencies l keys task_key vs (suc n)) found (ground (arith, good))
                (rw (text_eq_sym (strip (to_text l v)) task_key (ground (arith, good))) refl)
                (λ more e. read_dependencies-IsEdges task_key vs (suc n) more e)
                (ground (arith, good, h))
        ]

  append_edges-IsEdges :
      (n : ℕ) (found more result : Edges)
      → IsEdges n found
      → IsEdges found.1 more
      → append_edges l keys found.0 (some more) ≡ some result
      → IsEdges n result
  append_edges-IsEdges n found more result a b h =
      let same : (found.0 ++ more.0, more.1) ≡ result = ground (arith, h) in
      subst (IsEdges n) same (record {
        count = omega (arith, a.count, b.count, length-append found.0 more.0);
        bounded = λ fits. b.bounded (a.bounded fits);
        no_loop = all-append is_no_loop found.0 more.0 a.no_loop b.no_loop;
      })
    where
      all-append :
          (p : DependencySpec → Bool) (xs ys : List DependencySpec)
          → all p xs ≡ true
          → all p ys ≡ true
          → all p (xs ++ ys) ≡ true
      all-append p [] ys x y = y
      all-append p (e ∷ xs) ys x y = ground (arith, all-append p xs ys)

  depends_or_refuse-IsEdges :
      (task_key : String) (o : Option (List Json)) (n : ℕ) (found : Edges)
      → depends_or_refuse l keys task_key o n ≡ some found
      → IsEdges n found
  depends_or_refuse-IsEdges task_key none n found h = absurd (cc)
  depends_or_refuse-IsEdges task_key (some vs) n found h =
      read_dependencies-IsEdges task_key vs n found h

  joined-IsEdges :
      (n : ℕ) (found : Edges) (others : Option Edges) (result : Edges)
      → IsEdges n found
      → ((more : Edges) → others ≡ some more → IsEdges found.1 more)
      → append_edges l keys found.0 others ≡ some result
      → IsEdges n result
  joined-IsEdges n found none result a b h = absurd (cc)
  joined-IsEdges n found (some more) result a b h =
      append_edges-IsEdges n found more result a (b more refl) h

  pub read_edges-IsEdges :
      (raw : Items) (n : ℕ) (found : Edges) → read_edges l keys raw n ≡ some found → IsEdges n found
  unfolding read_edges
  read_edges-IsEdges none_left n found h =
      let same : ([], n) ≡ found = ground (arith, h) in
      subst (IsEdges n) same
        (record { count = omega arith; bounded = λ fits. fits; no_loop = refl })
  read_edges-IsEdges (item (Json.object fields) rest) n found h =
      entered
        (depends_or_refuse l keys (raw_text l "key" fields)
          (depends_of l keys (get_field "depends_on" fields)) n)
        refl (λ m more e. read_edges-IsEdges rest m more e) h
    where
      entered :
          (o : Option Edges)
          → depends_or_refuse l keys
              (raw_text l "key" fields)
              (depends_of l keys (get_field "depends_on" fields))
              n
            ≡ o
          → ((m : ℕ) (more : Edges) → read_edges l keys rest m ≡ some more → IsEdges m more)
          → elim o [
            | none ↦ none
            | some first ↦ append_edges l keys first.0 (read_edges l keys rest first.1)
          ]
            ≡ some found
          → IsEdges n found
      entered none e others h' = absurd (cc)
      entered (some first) e others h' =
          joined-IsEdges n first (read_edges l keys rest first.1) found
            (depends_or_refuse-IsEdges (raw_text l "key" fields)
              (depends_of l keys (get_field "depends_on" fields)) n first e)
            (λ more e''. others first.1 more e'') h'
  read_edges-IsEdges (item v rest) n found h = absurd (cc)
