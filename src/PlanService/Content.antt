-- ===== src/PlanService/Content.antt =====
-- `_validate_revision_content` of src/zero/app/plan_service.py.
use zero_agent_dev_telegram.Common.{
  Bool, true, false, Option, none, some, List, [], ◌∷◌, ◌++◌, ◌==◌, is_blank, is_empty,
  if◌then◌else◌,
}
use zero_agent_dev_telegram.Domain.Identity.{ProjectId}
use zero_agent_dev_telegram.Domain.Plans.{
  ConversationEventId, ConversationEvent, PlanRevisionContent, is_authenticated_human,
}
use zero_agent_dev_telegram.Domain.Errors.{Error, ContentError}
use zero_agent_dev_telegram.Database.{Db}
use zero_agent_dev_telegram.Exec.{Exec, guard, ◌>>=◌, query}
use zero_agent_dev_telegram.Repository.Plan.{find_conversation_event}

abbrev complaint : Bool → ContentError → List ContentError
complaint true e = e ∷ []
complaint false e = []

abbrev pub row_errors :
    ProjectId → ConversationEventId → Option ConversationEvent → List ContentError
row_errors project eid none = ContentError.event_not_found eid ∷ []
row_errors project eid (some event) =
    (if event.project_id == project then [] else ContentError.event_in_other_project eid ∷ [])
    ++ (if is_authenticated_human event then [] else ContentError.event_not_human eid ∷ [])

-- The `for eid in content.source_event_ids` loop.
unfoldable pub event_errors : Db → ProjectId → List ConversationEventId → List ContentError
unfolding find_conversation_event
event_errors db project [] = []
event_errors db project (eid ∷ rest) =
    row_errors project eid (find_conversation_event eid db) ++ event_errors db project rest

unfoldable pub content_errors : Db → ProjectId → PlanRevisionContent → List ContentError
content_errors db project content =
    complaint (is_blank content.objective) ContentError.objective_empty
    ++ (complaint (is_empty content.acceptance_criteria) ContentError.acceptance_criteria_empty
        ++ (complaint (is_empty content.source_event_ids) ContentError.source_event_ids_empty
            ++ event_errors db project content.source_event_ids))

unfoldable pub validate_revision_content : PlanRevisionContent → ProjectId → Exec Unit
validate_revision_content content project = do
  errors ← query (λ db. content_errors db project content)
  guard (is_empty errors) (Error.plan_content_validation errors)
