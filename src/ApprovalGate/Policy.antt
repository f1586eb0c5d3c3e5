-- ===== src/ApprovalGate/Policy.antt =====
-- What `evaluate` of src/zero/app/approval_gate.py promises, stated on the rows without their order.
use zero_agent_dev_telegram.Common.{
  ◌≡◌, ◌⊎◌, refl, arith, ℕ, Bool, false, not, ◌&&◌, ◌||◌, if◌then◌else◌, Option, none, some, String,
  List, [], ◌∷◌, any, is_some,
}
use zero_agent_dev_telegram.Domain.Approvals.{
  ToolApprovalRequest, ApprovalVerdictState, ApprovalVerdict,
}
use zero_agent_dev_telegram.ApprovalGate.Triage.{is_safe_readonly}
use zero_agent_dev_telegram.ApprovalGate.Store.{
  Gate, is_off, is_auto, grants, is_deny_rule, is_standing, newest, find_standing,
}
use zero_agent_dev_telegram.ApprovalGate.Evaluation.{
  ToolCall, Patterns, evaluate, await_decision, request_approval, find_pending, consult_operator,
  consult_grants,
}

pub any-eq-newest :
    (p : ToolApprovalRequest → Bool) (rows : List ToolApprovalRequest)
    → any p rows ≡ is_some (newest p rows)
unfolding newest
any-eq-newest p [] = refl
any-eq-newest p (r ∷ rs) = ground (arith, any-eq-newest p rs)

module _ (p : Patterns) (c : ToolCall) (g : Gate) where
  abbrev pub hash : String
  hash = p.canonical_args_hash c.input_data

  -- A hardline pattern matches the call.
  abbrev pub is_catastrophic : Bool
  is_catastrophic = is_some (p.hardline_match c.tool_name c.input_data)

  abbrev pub has_grant : Bool
  has_grant = any (grants c.project_id c.execution_id c.tool_name) g.session_grants

  abbrev pub has_deny_rule : Bool
  has_deny_rule = any (is_deny_rule c.project_id c.tool_name hash) g.decisions

  abbrev pub has_standing_allow : Bool
  has_standing_allow =
      any (is_standing c.project_id c.tool_name hash) g.decisions
      || any (is_standing c.project_id c.tool_name "") g.decisions

  -- The posture first, then the hardline floor, the grants of the session, the deny rules, and what
  -- needs nobody's click.
  abbrev pub is_permitted : Bool
  is_permitted =
      is_off g.mode
      || (not is_catastrophic
          && (has_grant
              || (not has_deny_rule
                  && (is_auto g.mode
                      || is_safe_readonly c.tool_name c.input_data
                      || has_standing_allow))))

  abbrev pub is_refused : Bool
  is_refused = not (is_off g.mode) && (is_catastrophic || (not has_grant && has_deny_rule))

  abbrev pub policy : ApprovalVerdictState
  policy =
      if is_permitted
      then ApprovalVerdictState.allowed
      else if is_refused
      then ApprovalVerdictState.denied
      else ApprovalVerdictState.pending

pub any-eq-find_standing :
    (project : ℕ) (tool hash : String) (rows : List ToolApprovalRequest)
    → (any (is_standing project tool hash) rows || any (is_standing project tool "") rows)
      ≡ is_some (find_standing project tool hash rows)
unfolding find_standing
any-eq-find_standing project tool hash rows = ground (
  arith,
  any-eq-newest (is_standing project tool hash) rows,
  any-eq-newest (is_standing project tool "") rows,
)

await_decision-pending :
    (c : ToolCall) (shape : String) (r : Option ToolApprovalRequest) (g : Gate)
    → (await_decision c shape r g).0.state ≡ ApprovalVerdictState.pending
unfolding await_decision request_approval
await_decision-pending c shape none g = refl
await_decision-pending c shape (some r) g = ground arith

-- A verdict with the given state, which changes the gate only to wait for a decision.
abbrev Gives : ApprovalVerdict × Gate → ApprovalVerdictState → Gate → Type 0
Gives v state g = (v.0.state ≡ state) × ((v.0.state ≡ ApprovalVerdictState.pending) ⊎ (v.1 ≡ g))

consult_operator-Gives :
    (c : ToolCall) (shape : String) (g : Gate)
    → Gives
        (consult_operator c shape g)
        (if is_safe_readonly c.tool_name c.input_data
            || any (is_standing c.project_id c.tool_name shape) g.decisions
            || any (is_standing c.project_id c.tool_name "") g.decisions
          then ApprovalVerdictState.allowed
          else ApprovalVerdictState.pending)
        g
consult_operator-Gives c shape g = ground (
  arith,
  any-eq-find_standing c.project_id c.tool_name shape g.decisions,
  await_decision-pending c shape (find_pending c shape g) g,
)

consult_grants-Gives :
    (p : Patterns) (c : ToolCall) (g : Gate)
    → is_off g.mode ≡ false
    → is_catastrophic p c g ≡ false
    → Gives (consult_grants c (hash p c g) g) (policy p c g) g
consult_grants-Gives p c g mode calm = ground (
  arith,
  any-eq-newest (is_deny_rule c.project_id c.tool_name (hash p c g)) g.decisions,
  consult_operator-Gives c (hash p c g) g,
)

-- The state of a verdict is the policy's, whatever the order of the rows, and only a call that waits
-- for a decision changes the tables: every other leaves the gate as it was.
pub evaluate-refines-policy :
    (p : Patterns) (c : ToolCall) (g : Gate)
    → ((evaluate p c g).0.state ≡ policy p c g)
      × (((evaluate p c g).0.state ≡ ApprovalVerdictState.pending) ⊎ ((evaluate p c g).1 ≡ g))
unfolding evaluate
evaluate-refines-policy p c g = ground (arith, consult_grants-Gives p c g)
