-- ===== src/PlanService/Provenance.antt =====
-- `_validate_revision_content` of src/zero/app/plan_service.py against a description of valid content.
use zero_agent_dev_telegram.Common.{
  ◌≡◌, ◌≢◌, ◌↔◌, refl, arith, false, some, List, [], ◌∷◌, inl, inr, Option-cases, is_blank,
}
use zero_agent_dev_telegram.Domain.Identity.{ProjectId}
use zero_agent_dev_telegram.Domain.Plans.{
  ConversationEventId, ConversationEvent, EventOriginKind, PlanRevisionContent,
}
use zero_agent_dev_telegram.Database.{Db}
use zero_agent_dev_telegram.Repository.Plan.{find_conversation_event}
use zero_agent_dev_telegram.PlanService.Content.{row_errors, event_errors, content_errors}

-- A stored event of the project that an authenticated human caused.
pub record IsHumanEvent (db : Db) (project : ProjectId) (eid : ConversationEventId) : Type 0 where
  pub event : ConversationEvent
  pub found : find_conversation_event eid db ≡ some event
  pub in_project : event.project_id ≡ project
  pub human : event.origin_kind ≡ EventOriginKind.authenticated_human

abbrev pub AreHumanEvents : Db → ProjectId → List ConversationEventId → Type 0
AreHumanEvents db project [] = Unit
AreHumanEvents db project (eid ∷ rest) =
    IsHumanEvent db project eid × AreHumanEvents db project rest

pub record IsValidContent (db : Db) (project : ProjectId) (content : PlanRevisionContent)
    : Type 0 where
  pub objective : is_blank content.objective ≡ false
  pub acceptance_criteria : content.acceptance_criteria ≢ []
  pub source_event_ids : content.source_event_ids ≢ []
  pub events : AreHumanEvents db project content.source_event_ids

human_of_row :
    (db : Db) (project : ProjectId) (eid : ConversationEventId)
    → row_errors project eid (find_conversation_event eid db) ≡ []
    → IsHumanEvent db project eid
human_of_row db project eid h = elim (Option-cases (find_conversation_event eid db)) [
  | inl e ↦ absurd (ground arith)
  | inr (event, e) ↦ record {
    event = event;
    found = e;
    in_project = ground arith;
    human = ground arith;
  }
]

events_of_errors :
    (db : Db) (project : ProjectId) (ids : List ConversationEventId)
    → event_errors db project ids ≡ []
    → AreHumanEvents db project ids
unfolding event_errors
events_of_errors db project [] h = tt
events_of_errors db project (eid ∷ rest) h =
    (human_of_row db project eid (ground arith), events_of_errors db project rest (ground arith))

errors_of_events :
    (db : Db) (project : ProjectId) (ids : List ConversationEventId)
    → AreHumanEvents db project ids
    → event_errors db project ids ≡ []
unfolding event_errors
errors_of_events db project [] h = refl
errors_of_events db project (eid ∷ rest) (x, more) =
    ground (arith, errors_of_events db project rest more, x.found, x.in_project, x.human)

-- The validator collects no error exactly for content with an objective, acceptance criteria and at
-- least one source event, all of whose source events are stored events of the project caused by an
-- authenticated human: one event of another origin among them is an error.
pub content_errors-nil_iff :
    (db : Db) (project : ProjectId) (content : PlanRevisionContent)
    → (content_errors db project content ≡ []) ↔ IsValidContent db project content
unfolding content_errors
content_errors-nil_iff db project content = (
  λ h. record {
    objective = ground arith;
    acceptance_criteria = λ e. ground arith;
    source_event_ids = λ e. ground arith;
    events = events_of_errors db project content.source_event_ids (ground arith);
  },
  λ v. ground (
    arith,
    v.objective,
    v.acceptance_criteria,
    v.source_event_ids,
    errors_of_events db project content.source_event_ids v.events,
  ),
)
