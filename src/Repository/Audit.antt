-- ===== src/Repository/Audit.antt =====
-- src/zero/persistence/repositories/audit_repository.py: audit events are only appended.
use zero_agent_dev_telegram.Common.{ℕ, Option, some, [], ◌∷◌, ◌++◌}
use zero_agent_dev_telegram.Domain.Identity.{UserId, ProjectId}
use zero_agent_dev_telegram.Domain.Audit.{Source, Operation, Target, AuditResult, AuditEvent}
use zero_agent_dev_telegram.Exec.{Exec, ◌>>=◌, generate_token, write}

unfoldable pub insert_audit_event : AuditEvent → Exec Unit
insert_audit_event event = write (λ db. record db { audit_events = db.audit_events ++ event ∷ [] })

-- The audit event that a service method inserts, with the result that it reports.
unfoldable pub record_audit :
    ProjectId → UserId → Source → Operation → Target → AuditResult → Option ℕ → Exec Unit
unfolding generate_token insert_audit_event
record_audit project actor source operation target result correlation = do
  id ← generate_token
  insert_audit_event (record {
    id = id;
    project_id = some project;
    actor_id = some actor;
    source = source;
    operation = operation;
    target = target;
    result = result;
    correlation_id = correlation;
  })
