-- ===== src/ApprovalGate/Kept.antt =====
-- Each operation of src/zero/app/approval_gate.py keeps the key of its table and every decided row.
use zero_agent_dev_telegram.Common.{
  ◌≡◌, refl, arith, ℕ, suc, Bool, true, false, Option, none, some, String, [], ◌∷◌, ◌++◌, any,
  update, any-append, first_holds, any-of_first, Bool-cases, inl, inr, ◌⊎◌, subst, sym,
}
use zero_agent_dev_telegram.Domain.Approvals.{
  ToolApprovalGrain, Decision, ToolApprovalRequest, is_undecided, ApprovalVerdict,
}
use zero_agent_dev_telegram.Exec.{Result, ok, err}
use zero_agent_dev_telegram.ApprovalGate.Store.{
  Gate, has_id, get, is_pending_for, resolved_as, with_decisions, request_fresh, utc_second,
}
use zero_agent_dev_telegram.ApprovalGate.Evaluation.{
  ToolCall, Patterns, evaluate, await_decision, request_approval, close_out, find_pending,
  new_request, consult_operator, consult_grants,
}
use zero_agent_dev_telegram.ApprovalGate.Resolution.{
  Answer, resolve, resolve_stored, add_grant, add_wildcard, wildcard, stored_grain, follow_up,
  is_write_refused, after_write, reread, decide, with_grain, with_decision, grain_of, decision_of,
}
use zero_agent_dev_telegram.ApprovalGate.Keyed.{
  is_keyed, is_open, ids_below-unnamed, distinct-open, any-update_open, update-has_distinct_ids,
  update-ids_below, append-has_distinct_ids, append-ids_below, any-of_newest, newest_holds,
}

abbrev pub Decided : (ToolApprovalRequest → Bool) → Type 0
Decided p = (r : ToolApprovalRequest) → p r ≡ true → is_undecided r.decision ≡ false

pub record IsKept (g g' : Gate) : Type 0 where
  pub keyed : is_keyed g' ≡ true
  pub rows :
      (p : ToolApprovalRequest → Bool)
      → Decided p
      → any p g.decisions ≡ true
      → any p g'.decisions ≡ true

pub same-IsKept :
    (g g' : Gate)
    → is_keyed g ≡ true
    → g'.decisions ≡ g.decisions
    → g'.next_token ≡ g.next_token
    → IsKept g g'
same-IsKept g g' keyed rows token = record {
  keyed = rw (rows, token) keyed;
  rows = λ p decided e. rw rows e;
}

pub IsKept-trans : (g h k : Gate) → IsKept g h → IsKept h k → IsKept g k
IsKept-trans g h k a b = record {
  keyed = b.keyed;
  rows = λ p decided e. b.rows p decided (a.rows p decided e);
}

-- An insert under the next id.
appended-IsKept :
    (g g' : Gate) (r : ToolApprovalRequest)
    → is_keyed g ≡ true
    → r.id ≡ g.next_token
    → g'.decisions ≡ g.decisions ++ r ∷ []
    → g'.next_token ≡ suc g.next_token
    → IsKept g g'
appended-IsKept g g' r keyed id rows token = record {
  keyed = ground (
    arith,
    append-has_distinct_ids g.decisions r,
    append-ids_below g.next_token g.decisions r,
    ids_below-unnamed g.next_token r.id g.decisions,
  );
  rows = λ p decided e. ground (arith, any-append p g.decisions (r ∷ []));
}

-- An update of an open row.
updated-IsKept :
    (g : Gate) (id : ℕ) (f : ToolApprovalRequest → ToolApprovalRequest)
    → ((r : ToolApprovalRequest) → (f r).id ≡ r.id)
    → is_keyed g ≡ true
    → any (is_open id) g.decisions ≡ true
    → IsKept g (with_decisions (update (has_id id) f g.decisions) g)
updated-IsKept g id f keeps keyed opened = record {
  keyed = ground (
    arith,
    update-has_distinct_ids id f keeps g.decisions,
    update-ids_below g.next_token id f keeps g.decisions,
  );
  rows = λ p decided e.
      ground (arith, any-update_open p id f decided g.decisions, distinct-open id g.decisions);
}

request_approval-IsKept :
    (c : ToolCall) (shape : String) (g : Gate)
    → is_keyed g ≡ true
    → IsKept g (request_approval c shape g).1
unfolding request_approval
request_approval-IsKept c shape g keyed =
    appended-IsKept g (request_approval c shape g).1 (new_request c shape g) keyed refl refl refl

close_out-IsKept :
    (c : ToolCall) (shape : String) (r : ToolApprovalRequest) (g : Gate)
    → is_keyed g ≡ true
    → find_pending c shape g ≡ some r
    → IsKept g (close_out r g)
unfolding find_pending
close_out-IsKept c shape r g keyed found =
    let q = is_pending_for c.project_id c.execution_id c.tool_name shape in
    updated-IsKept g r.id (resolved_as none none ToolApprovalGrain.once none none) (λ s. refl) keyed
      (ground (arith, newest_holds q g.decisions r, any-of_newest q (is_open r.id) g.decisions r))

await_decision-IsKept :
    (c : ToolCall) (shape : String) (g : Gate)
    → is_keyed g ≡ true
    → IsKept g (await_decision c shape (find_pending c shape g) g).1
unfolding await_decision
await_decision-IsKept c shape g keyed = awaited (find_pending c shape g) refl
  where
    awaited :
        (o : Option ToolApprovalRequest)
        → find_pending c shape g ≡ o
        → IsKept g (await_decision c shape o g).1
    awaited none e = request_approval-IsKept c shape g keyed
    awaited (some r) e = elim (Bool-cases (request_fresh r g)) [
      | inl fresh ↦ rw fresh (same-IsKept g g keyed refl refl)
      | inr expired ↦
          let k = close_out-IsKept c shape r g keyed e in
          rw expired (
            IsKept-trans g (close_out r g) (request_approval c shape (close_out r g)).1 k
              (request_approval-IsKept c shape (close_out r g) k.keyed))
    ]

-- A verdict leaves the gate alone or comes from the wait for a decision.
abbrev Waits : ToolCall → String → Gate → ApprovalVerdict × Gate → Type 0
Waits c shape g v = (v.1 ≡ g) ⊎ (v.1 ≡ (await_decision c shape (find_pending c shape g) g).1)

consult_operator-Waits :
    (c : ToolCall) (shape : String) (g : Gate) → Waits c shape g (consult_operator c shape g)
consult_operator-Waits c shape g = ground arith

consult_grants-Waits :
    (c : ToolCall) (shape : String) (g : Gate) → Waits c shape g (consult_grants c shape g)
consult_grants-Waits c shape g = ground (arith, consult_operator-Waits c shape g)

evaluate-Waits :
    (p : Patterns) (c : ToolCall) (g : Gate)
    → Waits c (p.canonical_args_hash c.input_data) g (evaluate p c g)
unfolding evaluate
evaluate-Waits p c g = ground (arith, consult_grants-Waits c (p.canonical_args_hash c.input_data) g)

pub evaluate-IsKept :
    (p : Patterns) (c : ToolCall) (g : Gate) → is_keyed g ≡ true → IsKept g (evaluate p c g).1
evaluate-IsKept p c g keyed = elim (evaluate-Waits p c g) [
  | inl same ↦ subst (IsKept g) (sym same) (same-IsKept g g keyed refl refl)
  | inr waits ↦
      subst (IsKept g) (sym waits)
        (await_decision-IsKept c (p.canonical_args_hash c.input_data) g keyed)
]

follow_up-IsKept :
    (decision : Decision) (grain : ToolApprovalGrain) (r : ToolApprovalRequest) (g : Gate)
    → is_keyed g ≡ true
    → IsKept g (follow_up decision grain r g).1
unfolding add_grant add_wildcard
follow_up-IsKept Decision.allow ToolApprovalGrain.session r g keyed =
    same-IsKept g (add_grant r g) keyed (ground arith) (ground arith)
follow_up-IsKept Decision.deny ToolApprovalGrain.always r g keyed =
    appended-IsKept g (add_wildcard r g) (wildcard r g.next_token) keyed refl
      (ground (arith, ids_below-unnamed g.next_token g.next_token g.decisions)) refl
follow_up-IsKept decision grain r g keyed = same-IsKept g g keyed refl refl

pub resolve_stored-IsKept :
    (r : ToolApprovalRequest) (decision : Decision) (grain : ToolApprovalGrain) (a : Answer)
    (g : Gate)
    → is_keyed g ≡ true
    → get a.request_id g ≡ some r
    → is_undecided r.decision ≡ true
    → IsKept g (resolve_stored r decision grain a g).1
unfolding resolve_stored get
resolve_stored-IsKept r decision grain a g keyed found undecided =
    elim (Bool-cases (is_write_refused r decision grain g)) [
      | inl refused ↦ rw refused (same-IsKept g g keyed refl refl)
      | inr written ↦ rw written (
          updated-IsKept g r.id
            (resolved_as (some decision) a.decided_by_user_id (stored_grain decision grain) a.reason
              (some (utc_second g)))
            (λ s. refl) keyed
            (ground (
              arith,
              first_holds (has_id a.request_id) g.decisions {a = r},
              any-of_first (has_id a.request_id) (is_open r.id) g.decisions r,
            )))
    ]

after_write-IsKept :
    (id : ℕ) (decision : Decision) (grain : ToolApprovalGrain) (x : Result {0} Unit × Gate)
    → is_keyed x.1 ≡ true
    → IsKept x.1 (after_write id decision grain x).1
after_write-IsKept id decision grain (err e, g) keyed = same-IsKept g g keyed refl refl
after_write-IsKept id decision grain (ok u, g) keyed = read (get id g)
  where
    read : (o : Option ToolApprovalRequest) → IsKept g (reread decision grain o g).1
    read none = same-IsKept g g keyed refl refl
    read (some r) = follow_up-IsKept decision grain r g keyed

decide-IsKept :
    (a : Answer) (decision : Decision) (grain : ToolApprovalGrain) (g : Gate)
    → is_keyed g ≡ true
    → IsKept g (decide a decision grain (get a.request_id g) g).1
decide-IsKept a decision grain g keyed = decided (get a.request_id g) refl
  where
    decided :
        (o : Option ToolApprovalRequest)
        → get a.request_id g ≡ o
        → IsKept g (decide a decision grain o g).1
    decided none e = same-IsKept g g keyed refl refl
    decided (some r) e = elim (Bool-cases (is_undecided r.decision)) [
      | inl undecided ↦
          let k = resolve_stored-IsKept r decision grain a g keyed e undecided in
          let x = resolve_stored r decision grain a g in
          rw undecided (
            IsKept-trans g x.1 (after_write a.request_id decision grain x).1 k
              (after_write-IsKept a.request_id decision grain x k.keyed))
      | inr settled ↦ rw settled (same-IsKept g g keyed refl refl)
    ]

pub resolve-IsKept : (a : Answer) (g : Gate) → is_keyed g ≡ true → IsKept g (resolve a g).1
unfolding resolve
resolve-IsKept a g keyed = parsed (decision_of a.decision)
  where
    grained : (d : Decision) (o : Option ToolApprovalGrain) → IsKept g (with_grain a d o g).1
    grained d none = same-IsKept g g keyed refl refl
    grained d (some grain) = decide-IsKept a d grain g keyed

    parsed : (o : Option Decision) → IsKept g (with_decision a o g).1
    parsed none = same-IsKept g g keyed refl refl
    parsed (some d) = grained d (grain_of a.grain)
