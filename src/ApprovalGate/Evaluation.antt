-- ===== src/ApprovalGate/Evaluation.antt =====
-- `ToolApprovalGate.evaluate` of src/zero/app/approval_gate.py. The hardline patterns and the
-- canonical hash of the arguments are parameters: they are regular expressions and SHA-256.
use zero_agent_dev_telegram.Common.{
  suc, Option, none, some, String, [], ◌∷◌, ◌++◌, any, first, update, if◌then◌else◌,
}
use zero_agent_dev_telegram.Common.Json.{Fields}
use zero_agent_dev_telegram.Domain.Identity.{ProjectId}
use zero_agent_dev_telegram.Domain.Execution.{ExecutionId}
use zero_agent_dev_telegram.Domain.Approvals.{
  ToolApprovalGrain, ToolApprovalRequest, ApprovalVerdictState, ApprovalVerdict, Cause,
}
use zero_agent_dev_telegram.ApprovalGate.Triage.{is_safe_readonly}
use zero_agent_dev_telegram.ApprovalGate.Store.{
  Mode, Gate, grants, is_deny_rule, is_pending_for, newest, find_standing, get, has_id, utc_second,
  request_fresh, resolved_as, with_decisions,
}

pub record ToolCall : Type 0 where
  pub project_id : ProjectId
  pub execution_id : Option ExecutionId
  pub tool_name : String
  pub input_data : Fields

-- `hardline_match` and `canonical_args_hash`.
pub record Patterns : Type 0 where
  pub hardline_match : String → Fields → Option String
  pub canonical_args_hash : Fields → String

abbrev pub allowed_by : Cause → Option ToolApprovalRequest → ApprovalVerdict
allowed_by cause request = record {
  state = ApprovalVerdictState.allowed;
  request = request;
  cause = some cause;
}

abbrev pub denied_by : Cause → Option ToolApprovalRequest → ApprovalVerdict
denied_by cause request = record {
  state = ApprovalVerdictState.denied;
  request = request;
  cause = some cause;
}

abbrev pub waiting_on : Option ToolApprovalRequest → ApprovalVerdict
waiting_on request = record {
  state = ApprovalVerdictState.pending;
  request = request;
  cause = none;
}

abbrev pub new_request : ToolCall → String → Gate → ToolApprovalRequest
new_request c hash g = record {
  id = g.next_token;
  project_id = c.project_id;
  execution_id = c.execution_id;
  tool_name = c.tool_name;
  args_hash = hash;
  grain = ToolApprovalGrain.once;
  decision = none;
  decided_by_user_id = none;
  reason = none;
  created_at = utc_second g;
  resolved_at = none;
}

-- The insert of a pending request, which is read back by its id.
unfoldable pub request_approval : ToolCall → String → Gate → ApprovalVerdict × Gate
unfolding get first
request_approval c hash g =
    let g' = record g {
      decisions = g.decisions ++ new_request c hash g ∷ [];
      next_token = suc g.next_token;
    } in
    (waiting_on (get g.next_token g'), g')

-- An expired row is written back undecided.
abbrev pub close_out : ToolApprovalRequest → Gate → Gate
close_out r g =
    with_decisions
      (update (has_id r.id) (resolved_as none none ToolApprovalGrain.once none none) g.decisions) g

unfoldable pub await_decision :
    ToolCall → String → Option ToolApprovalRequest → Gate → ApprovalVerdict × Gate
unfolding request_approval
await_decision c hash none g = request_approval c hash g
await_decision c hash (some r) g =
    if request_fresh r g then (waiting_on (some r), g) else request_approval c hash (close_out r g)

unfoldable pub find_pending : ToolCall → String → Gate → Option ToolApprovalRequest
unfolding newest
find_pending c hash g =
    newest (is_pending_for c.project_id c.execution_id c.tool_name hash) g.decisions

abbrev pub consult_standing :
    ToolCall → String → Option ToolApprovalRequest → Gate → ApprovalVerdict × Gate
consult_standing c hash (some r) g = (allowed_by Cause.standing_allow (some r), g)
consult_standing c hash none g = await_decision c hash (find_pending c hash g) g

abbrev pub consult_operator : ToolCall → String → Gate → ApprovalVerdict × Gate
consult_operator c hash g =
    if is_safe_readonly c.tool_name c.input_data
    then (allowed_by Cause.safe_readonly none, g)
    else consult_standing c hash (find_standing c.project_id c.tool_name hash g.decisions) g

abbrev pub in_mode : Mode → ToolCall → String → Gate → ApprovalVerdict × Gate
in_mode Mode.auto c hash g = (allowed_by Cause.mode_auto none, g)
in_mode mode c hash g = consult_operator c hash g

abbrev pub consult_rules :
    ToolCall → String → Option ToolApprovalRequest → Gate → ApprovalVerdict × Gate
consult_rules c hash (some r) g = (denied_by Cause.rule (some r), g)
consult_rules c hash none g = in_mode g.mode c hash g

abbrev pub consult_grants : ToolCall → String → Gate → ApprovalVerdict × Gate
consult_grants c hash g =
    if any (grants c.project_id c.execution_id c.tool_name) g.session_grants
    then (allowed_by Cause.session_grant none, g)
    else consult_rules c hash (newest (is_deny_rule c.project_id c.tool_name hash) g.decisions) g

abbrev pub consult_hardline : ToolCall → String → Option String → Gate → ApprovalVerdict × Gate
consult_hardline c hash (some pattern) g = (denied_by (Cause.hardline pattern) none, g)
consult_hardline c hash none g = consult_grants c hash g

abbrev pub guarded : Mode → ToolCall → String → Option String → Gate → ApprovalVerdict × Gate
guarded Mode.off c hash hardline g = (allowed_by Cause.mode_off none, g)
guarded mode c hash hardline g = consult_hardline c hash hardline g

unfoldable pub evaluate : Patterns → ToolCall → Gate → ApprovalVerdict × Gate
unfolding await_decision find_pending find_standing newest is_safe_readonly
evaluate p c g =
    guarded g.mode c (p.canonical_args_hash c.input_data)
      (p.hardline_match c.tool_name c.input_data) g
