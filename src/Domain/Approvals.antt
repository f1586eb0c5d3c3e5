-- ===== src/Domain/Approvals.antt =====
-- src/zero/domain/approvals.py: the durable row of a tool approval, and the verdict on a tool call.
-- Instants are seconds since the epoch, as the stored texts are; an identifier is an opaque number.
use zero_agent_dev_telegram.Common.{ℕ, Bool, true, false, Option, none, some, String}
use zero_agent_dev_telegram.Domain.Identity.{ProjectId, UserId}
use zero_agent_dev_telegram.Domain.Execution.{ExecutionId}

pub data ApprovalVerdictState : Type 0 where
  allowed denied pending : ApprovalVerdictState

pub data ToolApprovalGrain : Type 0 where
  once session always : ToolApprovalGrain

pub data Decision : Type 0 where
  allow deny : Decision

pub record ToolApprovalRequest : Type 0 where
  pub id : ℕ
  pub project_id : ProjectId
  pub execution_id : Option ExecutionId
  pub tool_name : String
  pub args_hash : String
  pub grain : ToolApprovalGrain
  pub decision : Option Decision
  pub decided_by_user_id : Option UserId
  pub reason : Option String
  pub created_at : ℕ
  pub resolved_at : Option ℕ

pub data Cause : Type 0 where
  mode_off session_grant rule mode_auto safe_readonly standing_allow : Cause
  hardline : String → Cause

pub record ApprovalVerdict : Type 0 where
  pub state : ApprovalVerdictState
  pub request : Option ToolApprovalRequest
  pub cause : Option Cause

abbrev pub is_allow : Option Decision → Bool
is_allow (some Decision.allow) = true
is_allow d = false

abbrev pub is_deny : Option Decision → Bool
is_deny (some Decision.deny) = true
is_deny d = false

abbrev pub is_undecided : Option Decision → Bool
is_undecided none = true
is_undecided (some d) = false

abbrev pub is_always : ToolApprovalGrain → Bool
is_always ToolApprovalGrain.always = true
is_always g = false

abbrev pub is_session : ToolApprovalGrain → Bool
is_session ToolApprovalGrain.session = true
is_session g = false
