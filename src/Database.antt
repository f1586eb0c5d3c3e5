-- ===== src/Database.antt =====
-- The durable state behind src/zero/persistence: one list of rows for each table, in insertion
-- order. `World` adds the wall clock and the source of fresh identifiers of src/zero/domain/ids.py:
-- a counter stands for the random tokens, of which the program needs only that none repeats.
use zero_agent_dev_telegram.Common.{ℕ, List}
use zero_agent_dev_telegram.Domain.Identity.{User, ProjectMembership}
use zero_agent_dev_telegram.Domain.Audit.{AuditEvent}
use zero_agent_dev_telegram.Domain.Plans.{
  ConversationEvent, Plan, PlanRevision, PlanApproval, PlanHandoff,
}
use zero_agent_dev_telegram.Domain.Execution.{
  Execution, Task, TaskDependency, TaskAttempt, ExecutionSnapshot,
}
use zero_agent_dev_telegram.Domain.Artifacts.{Artifact, ArtifactProvenance}

pub record Db : Type 0 where
  pub users : List User
  pub project_memberships : List ProjectMembership
  pub audit_events : List AuditEvent
  pub conversation_events : List ConversationEvent
  pub plans : List Plan
  pub plan_revisions : List PlanRevision
  pub plan_approvals : List PlanApproval
  pub plan_handoffs : List PlanHandoff
  pub executions : List Execution
  pub tasks : List Task
  pub task_dependencies : List TaskDependency
  pub task_attempts : List TaskAttempt
  pub execution_snapshots : List ExecutionSnapshot
  pub artifacts : List Artifact
  pub artifact_provenance : List ArtifactProvenance

pub record World : Type 0 where
  pub db : Db
  pub now : ℕ
  pub next_token : ℕ
