-- ===== src/ApprovalGate/Waiting.antt =====
-- Calls that wait for a decision in src/zero/app/approval_gate.py: one request for calls that are
-- alike, for as long as it is fresh.
use zero_agent_dev_telegram.Common.{
  ◌≡◌, refl, ◌∙◌, arith, ℕ, ◌≤◌, ◌*◌, suc, Bool, true, false, Option, none, some, String, List, [],
  ◌∷◌, ◌++◌, any, eq_iff, first, any-append, any-update, first-append, sym, any-eq-first,
}
use zero_agent_dev_telegram.Domain.Approvals.{
  ToolApprovalGrain, ToolApprovalRequest, ApprovalVerdictState,
}
use zero_agent_dev_telegram.ApprovalGate.Store.{
  Gate, is_off, is_auto, same_execution, resolved_as, is_deny_rule, is_standing, is_pending_for,
  get, has_id, newest, request_fresh,
}
use zero_agent_dev_telegram.ApprovalGate.Evaluation.{
  ToolCall, Patterns, evaluate, await_decision, request_approval, find_pending, new_request,
  waiting_on, close_out, consult_operator, consult_grants,
}
use zero_agent_dev_telegram.ApprovalGate.Triage.{is_safe_readonly}
use zero_agent_dev_telegram.ApprovalGate.Policy.{
  hash, policy, has_grant, has_deny_rule, evaluate-refines-policy, any-eq-newest,
  any-eq-find_standing,
}
use zero_agent_dev_telegram.ApprovalGate.Keyed.{is_keyed, ids_below-unnamed}

newest-append :
    (p : ToolApprovalRequest → Bool) (rows : List ToolApprovalRequest) (r : ToolApprovalRequest)
    → newest p rows ≡ none
    → p r ≡ true
    → newest p (rows ++ r ∷ []) ≡ some r
unfolding newest
newest-append p [] r e h = ground arith
newest-append p (s ∷ rs) r e h = ground (arith, newest-append p rs r)

get-append :
    (rows : List ToolApprovalRequest) (r : ToolApprovalRequest) (id : ℕ)
    → any (has_id id) rows ≡ false
    → r.id ≡ id
    → first (has_id id) (rows ++ r ∷ []) ≡ some r
unfolding first
get-append rows r id unnamed e =
    ground (arith, first-append (has_id id) rows (r ∷ []), any-eq-first (has_id id) rows)

operator-await :
    (c : ToolCall) (shape : String) (g : Gate)
    → is_safe_readonly c.tool_name c.input_data ≡ false
    → any (is_standing c.project_id c.tool_name shape) g.decisions ≡ false
    → any (is_standing c.project_id c.tool_name "") g.decisions ≡ false
    → consult_operator c shape g ≡ await_decision c shape (find_pending c shape g) g
operator-await c shape g writes unshaped unwild =
    ground (arith, any-eq-find_standing c.project_id c.tool_name shape g.decisions)

-- What the policy leaves to an operator.
record IsAsking (p : Patterns) (c : ToolCall) (g : Gate) : Type 0 where
  active : is_off g.mode ≡ false
  attended : is_auto g.mode ≡ false
  calm : p.hardline_match c.tool_name c.input_data ≡ none
  ungranted : has_grant p c g ≡ false
  unruled : has_deny_rule p c g ≡ false
  writes : is_safe_readonly c.tool_name c.input_data ≡ false
  unshaped : any (is_standing c.project_id c.tool_name (hash p c g)) g.decisions ≡ false
  unwild : any (is_standing c.project_id c.tool_name "") g.decisions ≡ false

policy-IsAsking :
    (p : Patterns) (c : ToolCall) (g : Gate)
    → policy p c g ≡ ApprovalVerdictState.pending
    → IsAsking p c g
policy-IsAsking p c g e = ground arith

grants-await :
    (p : Patterns) (c : ToolCall) (g : Gate)
    → IsAsking p c g
    → consult_grants c (hash p c g) g
      ≡ await_decision c (hash p c g) (find_pending c (hash p c g) g) g
grants-await p c g q = ground (
  arith,
  any-eq-newest (is_deny_rule c.project_id c.tool_name (hash p c g)) g.decisions,
  operator-await c (hash p c g) g q.writes q.unshaped q.unwild,
  q.active,
  q.attended,
  q.ungranted,
  q.unruled,
)

evaluate-await :
    (p : Patterns) (c : ToolCall) (g : Gate)
    → IsAsking p c g
    → evaluate p c g ≡ await_decision c (hash p c g) (find_pending c (hash p c g) g) g
unfolding evaluate
evaluate-await p c g q = ground (arith, grants-await p c g q, q.active, q.calm)

-- The gate after a new request for the call, at some later time.
abbrev pub requested : Patterns → ToolCall → ℕ → Gate → Gate
requested p c n g = record g {
  decisions = g.decisions ++ new_request c (hash p c g) g ∷ [];
  next_token = suc g.next_token;
  now = n;
}

requested-IsAsking :
    (p : Patterns) (c : ToolCall) (n : ℕ) (g : Gate)
    → IsAsking p c g
    → IsAsking p c (requested p c n g)
requested-IsAsking p c n g q =
    let r = new_request c (hash p c g) g ∷ [] in
    record {
      active = q.active;
      attended = q.attended;
      calm = q.calm;
      ungranted = q.ungranted;
      unruled = ground (
        arith,
        any-append (is_deny_rule c.project_id c.tool_name (hash p c g)) g.decisions r,
        q.unruled,
      );
      writes = q.writes;
      unshaped = ground (
        arith,
        any-append (is_standing c.project_id c.tool_name (hash p c g)) g.decisions r,
        q.unshaped,
      );
      unwild =
          ground
            (arith, any-append (is_standing c.project_id c.tool_name "") g.decisions r, q.unwild);
    }

same_execution_refl : (o : Option ℕ) → same_execution o o ≡ true
same_execution_refl none = refl
same_execution_refl (some n) = ground arith

requested-found :
    (p : Patterns) (c : ToolCall) (n : ℕ) (g : Gate)
    → find_pending c (hash p c g) g ≡ none
    → find_pending c (hash p c g) (requested p c n g) ≡ some (new_request c (hash p c g) g)
unfolding find_pending
requested-found p c n g unasked = ground (
  arith,
  newest-append (is_pending_for c.project_id c.execution_id c.tool_name (hash p c g)) g.decisions
      (new_request c (hash p c g) g),
  eq_iff c.tool_name c.tool_name,
  eq_iff (hash p c g) (hash p c g),
  same_execution_refl c.execution_id,
)

-- Calls that are alike share a request: where no request for the call is open, a call that waits adds
-- one, and the same call again, at any time at which that request is fresh, waits for that very
-- request and changes nothing.
pub evaluate_again-waits :
    (p : Patterns) (c : ToolCall) (n : ℕ) (g : Gate)
    → is_keyed g ≡ true
    → (evaluate p c g).0.state ≡ ApprovalVerdictState.pending
    → find_pending c (hash p c g) g ≡ none
    → request_fresh (new_request c (hash p c g) g) (record g { now = n }) ≡ true
    → (evaluate p c g ≡ (waiting_on (some (new_request c (hash p c g) g)), requested p c g.now g))
      × (evaluate p c (requested p c n g)
          ≡ (waiting_on (some (new_request c (hash p c g) g)), requested p c n g))
unfolding await_decision request_approval get
evaluate_again-waits p c n g keyed waits unasked fresh =
    let q = policy-IsAsking p c g (sym (evaluate-refines-policy p c g).0 ∙ waits) in
    (
      ground (
        arith,
        evaluate-await p c g q,
        get-append g.decisions (new_request c (hash p c g) g) g.next_token,
        ids_below-unnamed g.next_token g.next_token g.decisions,
      ),
      ground (
        arith,
        evaluate-await p c (requested p c n g) (requested-IsAsking p c n g q),
        requested-found p c n g,
      ),
    )

-- A request expires: once it is as old as the time to live, the row that waits is written back
-- undecided, and the same call waits for a new request.
pub evaluate_expired-asks :
    (p : Patterns) (c : ToolCall) (g : Gate) (r : ToolApprovalRequest)
    → is_keyed g ≡ true
    → (evaluate p c g).0.state ≡ ApprovalVerdictState.pending
    → find_pending c (hash p c g) g ≡ some r
    → request_fresh r g ≡ false
    → evaluate p c g
      ≡ (waiting_on (some (new_request c (hash p c g) g)), requested p c g.now (close_out r g))
unfolding await_decision request_approval get
evaluate_expired-asks p c g r keyed waits found stale =
    let q = policy-IsAsking p c g (sym (evaluate-refines-policy p c g).0 ∙ waits) in
    ground (
      arith,
      evaluate-await p c g q,
      get-append (close_out r g).decisions (new_request c (hash p c g) g) g.next_token,
      any-update (has_id g.next_token) (has_id r.id)
          (resolved_as none none ToolApprovalGrain.once none none) (λ s. refl) g.decisions,
      ids_below-unnamed g.next_token g.next_token g.decisions,
    )

-- East of UTC no request is fresh: where the local time is ahead by the time to live or more, the row
-- that waits for the call has expired from the start, and every call that is alike adds a request.
pub east_of_utc_asks :
    (p : Patterns) (c : ToolCall) (g : Gate) (r : ToolApprovalRequest)
    → is_keyed g ≡ true
    → (evaluate p c g).0.state ≡ ApprovalVerdictState.pending
    → find_pending c (hash p c g) g ≡ some r
    → r.created_at * 1_000_000 ≤ g.now
    → g.ttl ≤ g.east * 1_000_000
    → g.west ≡ 0
    → evaluate p c g
      ≡ (waiting_on (some (new_request c (hash p c g) g)), requested p c g.now (close_out r g))
east_of_utc_asks p c g r keyed waits found past ahead east =
    evaluate_expired-asks p c g r keyed waits found (ground arith)
