-- ===== src/ApprovalGate/Resolution.antt =====
-- `resolve`, `list_pending` and the retuning of `ToolApprovalGate` of src/zero/app/approval_gate.py.
use zero_agent_dev_telegram.Common.{
  ℕ, suc, Bool, true, false, ◌&&◌, Option, none, some, String, [], ◌∷◌, ◌++◌, ltb, any, text_eq,
  first, update, if◌then◌else◌,
}
use zero_agent_dev_telegram.Domain.Identity.{UserId}
use zero_agent_dev_telegram.Domain.Approvals.{
  ToolApprovalGrain, Decision, ToolApprovalRequest, is_undecided,
}
use zero_agent_dev_telegram.Domain.Errors.{Error}
use zero_agent_dev_telegram.Exec.{Result, ok, err}
use zero_agent_dev_telegram.ApprovalGate.Store.{
  Mode, SessionGrant, Gate, grants, get, has_id, utc_second, resolved_as, with_decisions, clashes,
}

pub record Answer : Type 0 where
  pub request_id : ℕ
  pub decision : String
  pub decided_by_user_id : Option UserId
  pub grain : String
  pub reason : Option String

abbrev pub decision_of : String → Option Decision
decision_of s =
    if text_eq s "allow"
    then some Decision.allow
    else if text_eq s "deny"
    then some Decision.deny
    else none

abbrev pub grain_of : String → Option ToolApprovalGrain
grain_of s =
    if text_eq s "once"
    then some ToolApprovalGrain.once
    else if text_eq s "session"
    then some ToolApprovalGrain.session
    else if text_eq s "always"
    then some ToolApprovalGrain.always
    else none

-- What the row is given: a denial is stored with the grain `once`.
abbrev pub stored_grain : Decision → ToolApprovalGrain → ToolApprovalGrain
stored_grain Decision.allow grain = grain
stored_grain Decision.deny grain = ToolApprovalGrain.once

-- The write of a decision, which the unique index on standing allows may refuse.
abbrev joins_standing : Decision → ToolApprovalGrain → Bool
joins_standing Decision.allow ToolApprovalGrain.always = true
joins_standing d g = false

abbrev pub is_write_refused : ToolApprovalRequest → Decision → ToolApprovalGrain → Gate → Bool
is_write_refused r decision grain g = joins_standing decision grain && any (clashes r) g.decisions

unfoldable pub resolve_stored :
    ToolApprovalRequest → Decision → ToolApprovalGrain → Answer → Gate → Result {0} Unit × Gate
resolve_stored r decision grain a g =
    if is_write_refused r decision grain g then (err Error.approval_write_failed, g) else (
      ok tt,
      with_decisions
          (update (has_id r.id)
            (resolved_as (some decision) a.decided_by_user_id (stored_grain decision grain) a.reason
              (some (utc_second g)))
            g.decisions)
          g,
    )

abbrev grant_of : ToolApprovalRequest → SessionGrant
grant_of r = record {
  project_id = r.project_id;
  execution_id = r.execution_id;
  tool_name = r.tool_name;
}

unfoldable pub add_grant : ToolApprovalRequest → Gate → Gate
add_grant r g =
    if any (grants r.project_id r.execution_id r.tool_name) g.session_grants
    then g
    else record g { session_grants = grant_of r ∷ g.session_grants }

-- The companion of a permanent denial, which covers every shape of arguments.
abbrev pub wildcard : ToolApprovalRequest → ℕ → ToolApprovalRequest
wildcard r id = record r {
  id = id;
  execution_id = none;
  args_hash = "";
  grain = ToolApprovalGrain.always;
  decision = some Decision.deny;
}

-- INSERT OR IGNORE: a row with the id is kept.
unfoldable pub add_wildcard : ToolApprovalRequest → Gate → Gate
add_wildcard r g = record g {
  decisions =
      if any (has_id g.next_token) g.decisions
      then g.decisions
      else g.decisions ++ wildcard r g.next_token ∷ [];
  next_token = suc g.next_token;
}

abbrev pub follow_up :
    Decision → ToolApprovalGrain → ToolApprovalRequest → Gate → Result ToolApprovalRequest × Gate
follow_up Decision.allow ToolApprovalGrain.session r g = (ok r, add_grant r g)
follow_up Decision.deny ToolApprovalGrain.always r g = (ok r, add_wildcard r g)
follow_up decision grain r g = (ok r, g)

-- The row is read again; it is there, since only its columns have changed.
abbrev pub reread :
    Decision
    → ToolApprovalGrain
    → Option ToolApprovalRequest
    → Gate
    → Result ToolApprovalRequest × Gate
reread decision grain none g = (err Error.assertion_error, g)
reread decision grain (some r) g = follow_up decision grain r g

abbrev pub after_write :
    ℕ → Decision → ToolApprovalGrain → Result {0} Unit × Gate → Result ToolApprovalRequest × Gate
after_write id decision grain (err e, g) = (err e, g)
after_write id decision grain (ok u, g) = reread decision grain (get id g) g

abbrev pub decide :
    Answer
    → Decision
    → ToolApprovalGrain
    → Option ToolApprovalRequest
    → Gate
    → Result ToolApprovalRequest × Gate
decide a decision grain none g = (err Error.tool_not_found_during_approval, g)
decide a decision grain (some r) g =
    if is_undecided r.decision
    then after_write a.request_id decision grain (resolve_stored r decision grain a g)
    else (ok r, g)

abbrev pub with_grain :
    Answer → Decision → Option ToolApprovalGrain → Gate → Result ToolApprovalRequest × Gate
with_grain a decision none g = (err Error.invalid_approval_grain, g)
with_grain a decision (some grain) g = decide a decision grain (get a.request_id g) g

abbrev pub with_decision : Answer → Option Decision → Gate → Result ToolApprovalRequest × Gate
with_decision a none g = (err Error.invalid_approval_decision, g)
with_decision a (some decision) g = with_grain a decision (grain_of a.grain) g

unfoldable pub resolve : Answer → Gate → Result ToolApprovalRequest × Gate
unfolding resolve_stored add_grant add_wildcard get first update
resolve a g = with_decision a (decision_of a.decision) g

abbrev mode_of : String → Option Mode
mode_of s =
    if text_eq s "off"
    then some Mode.off
    else if text_eq s "manual"
    then some Mode.manual
    else if text_eq s "auto"
    then some Mode.auto
    else none

abbrev in_new_mode : Option Mode → Gate → Result {0} Unit × Gate
in_new_mode none g = (err Error.value_error, g)
in_new_mode (some mode) g = (ok tt, record g { mode = mode })

unfoldable pub set_mode : String → Gate → Result {0} Unit × Gate
set_mode s g = in_new_mode (mode_of s) g

-- A time to live that is not positive is refused.
unfoldable pub set_pending_ttl : ℕ → Gate → Result {0} Unit × Gate
set_pending_ttl ttl g =
    if ltb 0 ttl then (ok tt, record g { ttl = ttl }) else (err Error.value_error, g)
