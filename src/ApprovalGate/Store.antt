-- ===== src/ApprovalGate/Store.antt =====
-- The state of `ToolApprovalGate` of src/zero/app/approval_gate.py, and the statements it runs on the
-- table `tool_approval_decisions`. A statement that the database itself fails is left out.
use zero_agent_dev_telegram.Common.{
  ℕ, ◌+◌, ◌*◌, ◌/◌, Bool, true, false, not, ◌&&◌, ◌||◌, Option, none, some, String, List, [], ◌∷◌,
  ◌==◌, ltb, text_eq, first, if◌then◌else◌,
}
use zero_agent_dev_telegram.Domain.Identity.{ProjectId, UserId}
use zero_agent_dev_telegram.Domain.Execution.{ExecutionId}
use zero_agent_dev_telegram.Domain.Approvals.{
  ToolApprovalGrain, Decision, ToolApprovalRequest, is_allow, is_deny, is_undecided, is_always,
  is_session,
}

pub data Mode : Type 0 where
  off manual auto : Mode

abbrev pub is_off : Mode → Bool
is_off Mode.off = true
is_off mode = false

abbrev pub is_auto : Mode → Bool
is_auto Mode.auto = true
is_auto mode = false

pub record SessionGrant : Type 0 where
  pub project_id : ProjectId
  pub execution_id : Option ExecutionId
  pub tool_name : String

-- The clock and the time to live count microseconds. `east` and `west` are the seconds by which the
-- local time of the process is ahead of UTC or behind it.
pub record Gate : Type 0 where
  pub mode : Mode
  pub ttl : ℕ
  pub session_grants : List SessionGrant
  pub decisions : List ToolApprovalRequest
  pub now : ℕ
  pub east : ℕ
  pub west : ℕ
  pub next_token : ℕ

abbrev pub same_execution : Option ExecutionId → Option ExecutionId → Bool
same_execution none none = true
same_execution (some a) (some b) = a == b
same_execution a b = false

abbrev pub grants : ProjectId → Option ExecutionId → String → SessionGrant → Bool
grants project execution tool g =
    g.project_id == project && same_execution g.execution_id execution && text_eq g.tool_name tool

abbrev pub is_of_tool : ProjectId → String → ToolApprovalRequest → Bool
is_of_tool project tool r = r.project_id == project && text_eq r.tool_name tool

-- `args_hash IN (?, '')`.
abbrev pub covers : String → ToolApprovalRequest → Bool
covers hash r = text_eq r.args_hash hash || text_eq r.args_hash ""

-- `decision = 'deny' AND grain IN ('always', 'once')`.
abbrev pub is_deny_rule : ProjectId → String → String → ToolApprovalRequest → Bool
is_deny_rule project tool hash r =
    is_of_tool project tool r && is_deny r.decision && not (is_session r.grain) && covers hash r

abbrev pub is_always_allow : ProjectId → String → ToolApprovalRequest → Bool
is_always_allow project tool r =
    is_of_tool project tool r && is_allow r.decision && is_always r.grain

abbrev pub is_standing : ProjectId → String → String → ToolApprovalRequest → Bool
is_standing project tool hash r = is_always_allow project tool r && text_eq r.args_hash hash

abbrev pub is_pending_for :
    ProjectId → Option ExecutionId → String → String → ToolApprovalRequest → Bool
is_pending_for project execution tool hash r =
    is_of_tool project tool r
    && text_eq r.args_hash hash
    && is_undecided r.decision
    && same_execution r.execution_id execution

abbrev newer : Option ToolApprovalRequest → ToolApprovalRequest → ToolApprovalRequest
newer none r = r
newer (some s) r = if ltb r.created_at s.created_at then s else r

-- ORDER BY created_at DESC LIMIT 1; of rows of one instant, the first.
unfoldable pub newest :
    (ToolApprovalRequest → Bool) → List ToolApprovalRequest → Option ToolApprovalRequest
newest p [] = none
newest p (r ∷ rs) = let rest = newest p rs in if p r then some (newer rest r) else rest

abbrev or_wildcard :
    Option ToolApprovalRequest → Option ToolApprovalRequest → Option ToolApprovalRequest
or_wildcard (some r) wildcard = some r
or_wildcard none wildcard = wildcard

-- ORDER BY (CASE WHEN args_hash = '' THEN 1 ELSE 0 END), created_at DESC LIMIT 1.
unfoldable pub find_standing :
    ProjectId → String → String → List ToolApprovalRequest → Option ToolApprovalRequest
unfolding newest
find_standing project tool hash rows =
    or_wildcard (newest (is_standing project tool hash) rows)
      (newest (is_standing project tool "") rows)

abbrev pub has_id : ℕ → ToolApprovalRequest → Bool
has_id id r = r.id == id

unfoldable pub get : ℕ → Gate → Option ToolApprovalRequest
get request_id g = first (has_id request_id) g.decisions

abbrev pub utc_second : Gate → ℕ
utc_second g = g.now / 1_000_000

-- `_request_fresh`: the stored UTC text is read as local time.
abbrev pub request_fresh : ToolApprovalRequest → Gate → Bool
request_fresh r g = ltb (g.now + g.east * 1_000_000) (g.ttl + (r.created_at + g.west) * 1_000_000)

abbrev keep_reason : Option String → Option String → Option String
keep_reason none old = old
keep_reason (some s) old = some s

abbrev pub resolved_as :
    Option Decision
    → Option UserId
    → ToolApprovalGrain
    → Option String
    → Option ℕ
    → ToolApprovalRequest
    → ToolApprovalRequest
resolved_as decision actor grain reason resolved_at r = record r {
  decision = decision;
  decided_by_user_id = actor;
  grain = grain;
  reason = keep_reason reason r.reason;
  resolved_at = resolved_at;
}

abbrev pub with_decisions : List ToolApprovalRequest → Gate → Gate
with_decisions rows g = record g { decisions = rows }

-- The unique index on standing allows of a shape, which the row of this id would join.
abbrev pub clashes : ToolApprovalRequest → ToolApprovalRequest → Bool
clashes r s =
    not (s.id == r.id)
    && is_always_allow r.project_id r.tool_name s
    && text_eq s.args_hash r.args_hash
