-- ===== src/Domain/Errors.antt =====
-- The typed failures of src/zero/domain, and the built-in exceptions that the services raise.
use zero_agent_dev_telegram.Common.{ℕ, String, List}
use zero_agent_dev_telegram.Domain.Authorization.{AuthorizationDecision}
use zero_agent_dev_telegram.Domain.Plans.{ConversationEventId}

-- The messages that `_validate_revision_content` collects.
pub data ContentError : Type 0 where
  objective_empty acceptance_criteria_empty source_event_ids_empty : ContentError
  event_in_other_project event_not_human event_not_found : ConversationEventId → ContentError

pub data Error : Type 0 where
  user_not_found : Error
  authorization : AuthorizationDecision → Error
  plan_not_found plan_revision_not_found invalid_plan_transition : Error
  stale_revision : (expected_revision actual_revision : ℕ) → Error
  conversation_event_not_found duplicate_conversation_event content_empty : Error
  plan_content_validation : List ContentError → Error
  execution_not_found task_not_found attempt_identity lease_ownership missing_evidence : Error
  invalid_execution_transition invalid_task_transition missing_dependency : Error
  cycle : List String → Error
  plan_not_approved duplicate_attempt : Error
  invalid_approval_decision invalid_approval_grain tool_not_found_during_approval : Error
  approval_write_failed : Error
  agent_type_not_found agent_instance_not_found : Error
  invalid_agent_type_transition concurrency_limit_exceeded : Error
  value_error assertion_error runtime_error integrity_error : Error
