-- ===== src/Domain/Plans.antt =====
-- src/zero/domain/plans.py: the plan state machine, conversation events, plans, revisions,
-- approvals and handoffs. Timestamps order rows for display and are left out.
use zero_agent_dev_telegram.Common.{ℕ, Bool, true, false, Option, List, [], ◌∷◌, String, ◌==◌, any}
use zero_agent_dev_telegram.Domain.Identity.{UserId, ProjectId}
use zero_agent_dev_telegram.Domain.Audit.{Source}

abbrev pub PlanId : Type 0
PlanId = ℕ

abbrev pub PlanRevisionId : Type 0
PlanRevisionId = ℕ

abbrev pub PlanApprovalId : Type 0
PlanApprovalId = ℕ

abbrev pub PlanHandoffId : Type 0
PlanHandoffId = ℕ

abbrev pub ConversationEventId : Type 0
ConversationEventId = ℕ

pub data PlanState : Type 0 where
  draft proposed approved rejected superseded archived : PlanState

pub data RevisionState : Type 0 where
  proposed approved rejected superseded : RevisionState

abbrev plan_state_index : PlanState → ℕ
plan_state_index PlanState.draft = 0
plan_state_index PlanState.proposed = 1
plan_state_index PlanState.approved = 2
plan_state_index PlanState.rejected = 3
plan_state_index PlanState.superseded = 4
plan_state_index PlanState.archived = 5

abbrev pub plan_state_eq : PlanState → PlanState → Bool
plan_state_eq a b = plan_state_index a == plan_state_index b

unfoldable pub plan_transitions : PlanState → List PlanState
plan_transitions PlanState.draft = PlanState.proposed ∷ []
plan_transitions PlanState.proposed =
    PlanState.proposed ∷ PlanState.approved ∷ PlanState.rejected ∷ []
plan_transitions PlanState.approved = PlanState.archived ∷ PlanState.superseded ∷ []
plan_transitions PlanState.rejected = PlanState.archived ∷ []
plan_transitions PlanState.superseded = PlanState.archived ∷ []
plan_transitions PlanState.archived = []

unfoldable pub is_valid_transition : PlanState → PlanState → Bool
unfolding plan_transitions
is_valid_transition from_state to_state = any (plan_state_eq to_state) (plan_transitions from_state)

pub data EventOriginKind : Type 0 where
  authenticated_human planner_injection system_reminder : EventOriginKind
  compaction_carrier tool_result auto_continue : EventOriginKind

pub record ConversationEvent : Type 0 where
  pub id : ConversationEventId
  pub project_id : ProjectId
  pub actor_id : UserId
  pub source : Source
  pub external_event_id : Option String
  pub origin_kind : EventOriginKind
  pub content : String

abbrev pub is_authenticated_human : ConversationEvent → Bool
is_authenticated_human event = elim (event.origin_kind) [
  | EventOriginKind.authenticated_human ↦ true
  | _ ↦ false
]

pub record Plan : Type 0 where
  pub id : PlanId
  pub project_id : ProjectId
  pub current_state : PlanState
  pub current_revision_number : ℕ

pub record PlanRevisionContent : Type 0 where
  pub objective : String
  pub scope : List String
  pub constraints : List String
  pub acceptance_criteria : List String
  pub risks : List String
  pub unresolved_questions : List String
  pub source_event_ids : List ConversationEventId

pub record PlanRevision : Type 0 where
  pub id : PlanRevisionId
  pub plan_id : PlanId
  pub project_id : ProjectId
  pub revision_number : ℕ
  pub content : PlanRevisionContent
  pub proposed_by : UserId
  pub state : RevisionState

pub data ApprovalResult : Type 0 where
  approved rejected : ApprovalResult

abbrev pub approval_result_eq : ApprovalResult → ApprovalResult → Bool
approval_result_eq ApprovalResult.approved ApprovalResult.approved = true
approval_result_eq ApprovalResult.rejected ApprovalResult.rejected = true
approval_result_eq _ _ = false

pub record PlanApproval : Type 0 where
  pub id : PlanApprovalId
  pub plan_id : PlanId
  pub revision_id : PlanRevisionId
  pub project_id : ProjectId
  pub approved_by : UserId
  pub source : Source
  pub result : ApprovalResult
  pub idempotency_key : String
  pub redacted_reason : Option String

pub record PlanHandoff : Type 0 where
  pub id : PlanHandoffId
  pub plan_id : PlanId
  pub revision_id : PlanRevisionId
  pub project_id : ProjectId
  pub approved_by : UserId
  pub execution_id : Option ℕ
