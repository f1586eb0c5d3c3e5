-- ===== src/Domain/Audit.antt =====
-- src/zero/domain/audit.py: the audit event. An operation is the constructor for its dotted name,
-- and a target is the pair of `target_type` and `target_id`. Summaries are display text, left out.
use zero_agent_dev_telegram.Common.{ℕ, Option}
use zero_agent_dev_telegram.Domain.Identity.{UserId, ProjectId}
use zero_agent_dev_telegram.Domain.Authorization.{Permission}

pub data Source : Type 0 where
  web telegram discord system internal : Source

pub data Operation : Type 0 where
  authz : Permission → Operation
  plan_create plan_propose plan_approve plan_reject : Operation
  execution_create execution_cancel execution_recover : Operation
  task_complete task_fail task_provider_unknown task_requeue : Operation
  task_reconcile task_retry_scheduled task_cancel : Operation
  agent_type_update : Operation

pub data Target : Type 0 where
  permission : Permission → Target
  plan plan_revision execution task agent_type : ℕ → Target

pub data AuditResult : Type 0 where
  success failure denied error : AuditResult

pub record AuditEvent : Type 0 where
  pub id : ℕ
  pub project_id : Option ProjectId
  pub actor_id : Option UserId
  pub source : Source
  pub operation : Operation
  pub target : Target
  pub result : AuditResult
  pub correlation_id : Option ℕ
