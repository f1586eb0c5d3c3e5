-- ===== src/Examples/Gates.antt =====
-- The approval gate of src/zero/app/approval_gate.py on a small table: a project whose agent calls a
-- tool that nobody has decided about.
use zero_agent_dev_telegram.Common.{
  ◌≡◌, refl, arith, false, none, some, List, [], ◌∷◌, ◌⊎◌, first, update,
}
use zero_agent_dev_telegram.Common.Json.{no_field}
use zero_agent_dev_telegram.Domain.Approvals.{
  ToolApprovalGrain, Decision, ToolApprovalRequest, ApprovalVerdictState, is_undecided,
}
use zero_agent_dev_telegram.Exec.{ok}
use zero_agent_dev_telegram.ApprovalGate.Triage.{is_safe_readonly}
use zero_agent_dev_telegram.ApprovalGate.Store.{Mode, Gate, newest, find_standing, get}
use zero_agent_dev_telegram.ApprovalGate.Evaluation.{
  ToolCall, Patterns, evaluate, find_pending, new_request, waiting_on, close_out,
}
use zero_agent_dev_telegram.ApprovalGate.Resolution.{Answer, resolve, resolve_stored, add_wildcard}
use zero_agent_dev_telegram.ApprovalGate.Policy.{policy, hash, evaluate-refines-policy}
use zero_agent_dev_telegram.ApprovalGate.Standing.{
  start, after, ticks, deny_always, deny_always-IsPermanent,
}
use zero_agent_dev_telegram.ApprovalGate.Answers.{
  allow_once, allow_always-IsStanding, first_answer_stands, allow_once_asks_again,
}
use zero_agent_dev_telegram.ApprovalGate.Waiting.{evaluate_again-waits, requested, east_of_utc_asks}

abbrev patterns : Patterns
patterns = record { hardline_match = λ tool input. none; canonical_args_hash = λ input. "h" }

abbrev call : ToolCall
call = record {
  project_id = 10;
  execution_id = some 200;
  tool_name = "write_file";
  input_data = no_field;
}

abbrev row : ToolApprovalRequest
row = record {
  id = 1;
  project_id = 10;
  execution_id = some 200;
  tool_name = "write_file";
  args_hash = "h";
  grain = ToolApprovalGrain.once;
  decision = none;
  decided_by_user_id = none;
  reason = none;
  created_at = 100;
  resolved_at = none;
}

abbrev gate : List ToolApprovalRequest → Gate
gate rows = record {
  mode = Mode.manual;
  ttl = 600_000_000;
  session_grants = [];
  decisions = rows;
  now = 130_000_000;
  east = 0;
  west = 0;
  next_token = 2;
}

abbrev answer : Answer
answer = record {
  request_id = 1;
  decision = "allow";
  decided_by_user_id = some 1;
  grain = "session";
  reason = none;
}

evaluate-refines-policy_example :
    ((evaluate patterns call (gate (row ∷ []))).0.state ≡ policy patterns call (gate (row ∷ [])))
    × (((evaluate patterns call (gate (row ∷ []))).0.state ≡ ApprovalVerdictState.pending)
        ⊎ ((evaluate patterns call (gate (row ∷ []))).1 ≡ gate (row ∷ [])))
evaluate-refines-policy_example = evaluate-refines-policy patterns call (gate (row ∷ []))

abbrev denied_row : ToolApprovalRequest
denied_row = record row {
  decision = some Decision.deny;
  decided_by_user_id = some 1;
  resolved_at = some 130;
}

abbrev wildcard_row : ToolApprovalRequest
wildcard_row = record denied_row {
  id = 2;
  execution_id = none;
  args_hash = "";
  grain = ToolApprovalGrain.always;
}

abbrev denied_gate : Gate
denied_gate = record (gate (denied_row ∷ wildcard_row ∷ [])) { next_token = 3 }

-- A day later, another call of the tool is denied.
deny_always-IsPermanent_example :
    (evaluate patterns
      (record call { execution_id = none })
      (record denied_gate { now = 86_400_000_000 })).0.state
    ≡ ApprovalVerdictState.denied
unfolding resolve resolve_stored add_wildcard get first update
deny_always-IsPermanent_example =
    deny_always-IsPermanent patterns answer (gate (row ∷ [])) denied_gate
      (record denied_gate { now = 86_400_000_000 }) row denied_row
      (record call { execution_id = none }) refl refl refl refl (after start (ticks 86_400_000_000))
      refl refl refl refl

abbrev allowed_row : ToolApprovalRequest
allowed_row = record row {
  grain = ToolApprovalGrain.always;
  decision = some Decision.allow;
  decided_by_user_id = some 1;
  resolved_at = some 130;
}

allow_always-IsStanding_example :
    (evaluate patterns call (record (gate (allowed_row ∷ [])) { now = 86_400_000_000 })).0.state
    ≡ ApprovalVerdictState.allowed
unfolding resolve resolve_stored get first update
allow_always-IsStanding_example =
    allow_always-IsStanding patterns answer (gate (row ∷ [])) (gate (allowed_row ∷ []))
      (record (gate (allowed_row ∷ [])) { now = 86_400_000_000 }) row allowed_row call refl refl
      refl refl (after start (ticks 86_400_000_000)) refl refl refl refl refl

abbrev once_row : ToolApprovalRequest
once_row = record allowed_row { grain = ToolApprovalGrain.once }

-- A denial that comes after the first answer changes nothing.
first_answer_stands_example :
    (is_undecided once_row.decision ≡ false)
    × (resolve (deny_always answer) (gate (once_row ∷ [])) ≡ (ok once_row, gate (once_row ∷ [])))
unfolding resolve resolve_stored get first update
first_answer_stands_example =
    first_answer_stands (allow_once answer) (deny_always answer) Decision.allow Decision.deny
      ToolApprovalGrain.once ToolApprovalGrain.always (gate (row ∷ [])) (gate (once_row ∷ [])) row
      once_row refl refl refl refl refl refl refl refl

allow_once_asks_again_example :
    (evaluate patterns call (gate (once_row ∷ []))).0.state ≡ ApprovalVerdictState.pending
unfolding resolve resolve_stored get first update evaluate newest find_standing is_safe_readonly
    find_pending
allow_once_asks_again_example =
    allow_once_asks_again patterns call answer (gate (row ∷ [])) (gate (once_row ∷ [])) row once_row
      refl refl refl refl

evaluate_again-waits_example :
    (evaluate patterns call (gate []) ≡ (
      waiting_on (some (new_request call (hash patterns call (gate [])) (gate []))),
      requested patterns call 130_000_000 (gate []),
    ))
    × (evaluate patterns call (requested patterns call 200_000_000 (gate [])) ≡ (
      waiting_on (some (new_request call (hash patterns call (gate [])) (gate []))),
      requested patterns call 200_000_000 (gate []),
    ))
unfolding evaluate newest find_standing is_safe_readonly find_pending
evaluate_again-waits_example =
    evaluate_again-waits patterns call 200_000_000 (gate []) refl refl refl refl

abbrev roman : Gate
roman = record (gate (row ∷ [])) { east = 3600 }

-- In Rome, an hour ahead of UTC, the row of half a minute ago counts as expired.
east_of_utc_asks_example : evaluate patterns call roman ≡ (
  waiting_on (some (new_request call (hash patterns call roman) roman)),
  requested patterns call 130_000_000 (close_out row roman),
)
unfolding evaluate newest find_standing is_safe_readonly find_pending
east_of_utc_asks_example =
    east_of_utc_asks patterns call roman row refl refl refl (omega arith) (omega arith) refl
