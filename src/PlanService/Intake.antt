-- ===== src/PlanService/Intake.antt =====
-- src/zero/app/plan_service.py: `ingest_conversation_event` and `create_plan`.
use zero_agent_dev_telegram.Common.{not, Option, none, String, is_blank, strip}
use zero_agent_dev_telegram.Domain.Identity.{UserId, ProjectId}
use zero_agent_dev_telegram.Domain.Authorization.{Permission}
use zero_agent_dev_telegram.Domain.Audit.{Source, Operation, Target, AuditResult}
use zero_agent_dev_telegram.Domain.Plans.{PlanState, EventOriginKind, ConversationEvent, Plan}
use zero_agent_dev_telegram.Domain.Errors.{Error}
use zero_agent_dev_telegram.Exec.{Exec, pure, guard, ◌>>=◌, ◌>>◌, generate_token, transaction}
use zero_agent_dev_telegram.Authorization.{require_permission}
use zero_agent_dev_telegram.Repository.Audit.{record_audit}
use zero_agent_dev_telegram.Repository.Plan.{insert_conversation_event, insert_plan}

-- `redact` stands for `redact_sensitive_text` of src/zero/domain/audit.py, a sweep of regular
-- expressions over the text.
unfoldable pub ingest_conversation_event :
    (redact : String → String)
    → ProjectId
    → UserId
    → Source
    → EventOriginKind
    → (content : String) → (external_event_id : Option String) → Exec ConversationEvent
unfolding generate_token insert_conversation_event
ingest_conversation_event redact project actor source origin_kind content external_event_id = do
  guard (not (is_blank content)) Error.content_empty
  require_permission actor project Permission.project_view source
  id ← generate_token
  let event : ConversationEvent = record {
    id = id;
    project_id = project;
    actor_id = actor;
    source = source;
    external_event_id = external_event_id;
    origin_kind = origin_kind;
    content = redact (strip content);
  }
  insert_conversation_event event
  pure event

unfoldable pub create_plan : ProjectId → UserId → Source → Exec Plan
unfolding transaction generate_token insert_plan record_audit
create_plan project actor source = do
  require_permission actor project Permission.plan_propose source
  id ← generate_token
  let plan : Plan = record {
    id = id;
    project_id = project;
    current_state = PlanState.draft;
    current_revision_number = 0;
  }
  transaction do
    insert_plan plan
    record_audit project actor source Operation.plan_create (Target.plan id) AuditResult.success
        none
  pure plan
