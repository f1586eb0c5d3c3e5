-- ===== src/ApprovalGate/Keyed.antt =====
-- The primary key of the table behind src/zero/app/approval_gate.py, and what it makes of an update by
-- id: a row that was decided is not touched.
use zero_agent_dev_telegram.Common.{
  ◌≡◌, refl, arith, ℕ, suc, ◌≤◌, Bool, true, false, not, ◌&&◌, ◌||◌, some, List, [], ◌∷◌, ◌++◌, ltb,
  any, all, update, any_mono, any-update, any-append,
}
use zero_agent_dev_telegram.Domain.Approvals.{ToolApprovalRequest, is_undecided}
use zero_agent_dev_telegram.ApprovalGate.Store.{Gate, has_id, newest}

abbrev pub has_distinct_ids : List ToolApprovalRequest → Bool
has_distinct_ids [] = true
has_distinct_ids (r ∷ rs) = not (any (has_id r.id) rs) && has_distinct_ids rs

abbrev pub ids_below : ℕ → List ToolApprovalRequest → Bool
ids_below n rows = all (λ r. ltb r.id n) rows

-- Each id names one row, and the next one that is drawn names none.
abbrev pub is_keyed : Gate → Bool
is_keyed g = has_distinct_ids g.decisions && ids_below g.next_token g.decisions

abbrev pub is_open : ℕ → ToolApprovalRequest → Bool
is_open id r = has_id id r && is_undecided r.decision

abbrev pub is_open_if_named : ℕ → ToolApprovalRequest → Bool
is_open_if_named id r = not (has_id id r) || is_undecided r.decision

pub ids_below-unnamed :
    (n m : ℕ) (rows : List ToolApprovalRequest)
    → n ≤ m
    → ids_below n rows ≡ true
    → any (has_id m) rows ≡ false
ids_below-unnamed n m [] le h = refl
ids_below-unnamed n m (r ∷ rs) le h = ground (arith, ids_below-unnamed n m rs)

pub ids_below_mono :
    (n m : ℕ) (rows : List ToolApprovalRequest)
    → n ≤ m
    → ids_below n rows ≡ true
    → ids_below m rows ≡ true
ids_below_mono n m [] le h = refl
ids_below_mono n m (r ∷ rs) le h = ground (arith, ids_below_mono n m rs)

unnamed-open :
    (id : ℕ) (rows : List ToolApprovalRequest)
    → any (has_id id) rows ≡ false
    → all (is_open_if_named id) rows ≡ true
unnamed-open id [] h = refl
unnamed-open id (r ∷ rs) h = ground (arith, unnamed-open id rs)

pub distinct-open :
    (id : ℕ) (rows : List ToolApprovalRequest)
    → has_distinct_ids rows ≡ true
    → any (is_open id) rows ≡ true
    → all (is_open_if_named id) rows ≡ true
distinct-open id [] h e = refl
distinct-open id (r ∷ rs) h e = ground (
  arith,
  distinct-open id rs,
  unnamed-open id rs,
  unnamed-open r.id rs,
  any_mono (is_open id) (has_id id) (λ s. ground arith) rs,
)

-- What holds of decided rows only, an update of an open row does not end.
pub any-update_open :
    (p : ToolApprovalRequest → Bool) (id : ℕ) (f : ToolApprovalRequest → ToolApprovalRequest)
    → ((r : ToolApprovalRequest) → p r ≡ true → is_undecided r.decision ≡ false)
    → (rows : List ToolApprovalRequest) → all (is_open_if_named id) rows ≡ true
    → any p rows ≡ true
    → any p (update (has_id id) f rows) ≡ true
unfolding update
any-update_open p id f decided [] h e = e
any-update_open p id f decided (r ∷ rs) h e =
    ground (arith, decided r, any-update_open p id f decided rs)

pub update-has_distinct_ids :
    (id : ℕ) (f : ToolApprovalRequest → ToolApprovalRequest)
    → ((r : ToolApprovalRequest) → (f r).id ≡ r.id)
    → (rows : List ToolApprovalRequest)
    → has_distinct_ids (update (has_id id) f rows) ≡ has_distinct_ids rows
unfolding update
update-has_distinct_ids id f keeps [] = refl
update-has_distinct_ids id f keeps (r ∷ rs) = ground (
  arith,
  keeps r,
  any-update (has_id r.id) (has_id id) f (λ s. ground (arith, keeps s)) rs,
  update-has_distinct_ids id f keeps rs,
)

pub update-ids_below :
    (n id : ℕ) (f : ToolApprovalRequest → ToolApprovalRequest)
    → ((r : ToolApprovalRequest) → (f r).id ≡ r.id)
    → (rows : List ToolApprovalRequest) → ids_below n (update (has_id id) f rows) ≡ ids_below n rows
unfolding update
update-ids_below n id f keeps [] = refl
update-ids_below n id f keeps (r ∷ rs) = ground (arith, keeps r, update-ids_below n id f keeps rs)

pub append-has_distinct_ids :
    (rows : List ToolApprovalRequest) (r : ToolApprovalRequest)
    → has_distinct_ids rows ≡ true
    → any (has_id r.id) rows ≡ false
    → has_distinct_ids (rows ++ r ∷ []) ≡ true
append-has_distinct_ids [] r h e = refl
append-has_distinct_ids (s ∷ rs) r h e =
    ground (arith, any-append (has_id s.id) rs (r ∷ []), append-has_distinct_ids rs r)

pub append-ids_below :
    (n : ℕ) (rows : List ToolApprovalRequest) (r : ToolApprovalRequest)
    → ids_below n rows ≡ true
    → r.id ≡ n
    → ids_below (suc n) (rows ++ r ∷ []) ≡ true
append-ids_below n [] r h e = ground arith
append-ids_below n (s ∷ rs) r h e = ground (arith, append-ids_below n rs r)

-- What the newest match satisfies, some row satisfies.
pub any-of_newest :
    (p q : ToolApprovalRequest → Bool) (rows : List ToolApprovalRequest) (r : ToolApprovalRequest)
    → newest p rows ≡ some r
    → q r ≡ true
    → any q rows ≡ true
unfolding newest
any-of_newest p q [] r h e = absurd (cc)
any-of_newest p q (s ∷ rs) r h e = ground (arith, any-of_newest p q rs r, any-of_newest p q rs)

pub newest_holds :
    (p : ToolApprovalRequest → Bool) (rows : List ToolApprovalRequest) (r : ToolApprovalRequest)
    → newest p rows ≡ some r
    → p r ≡ true
unfolding newest
newest_holds p [] r h = absurd (cc)
newest_holds p (s ∷ rs) r h = ground (arith, newest_holds p rs r)
