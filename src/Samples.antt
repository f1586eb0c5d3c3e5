-- ===== src/Samples.antt =====
-- Small worlds for the examples: a project with an owner and a viewer, a plan under proposal, and a
-- running execution.
use zero_agent_dev_telegram.Common.{ℕ, none, some, List, [], ◌∷◌, String}
use zero_agent_dev_telegram.Domain.Identity.{ProjectRole, UserStatus}
use zero_agent_dev_telegram.Domain.Audit.{Source}
use zero_agent_dev_telegram.Domain.Plans.{
  EventOriginKind, PlanState, RevisionState, Plan, PlanRevision, PlanRevisionContent,
}
use zero_agent_dev_telegram.Domain.Execution.{
  ExecutionState, TaskState, AttemptState, LeaseText, Execution, Task, TaskAttempt,
}
use zero_agent_dev_telegram.Domain.Artifacts.{Artifact}
use zero_agent_dev_telegram.Database.{Db, World}
use zero_agent_dev_telegram.PlanService.Verdicts.{Verdict}
use zero_agent_dev_telegram.PlanService.Proposals.{Proposal}
use zero_agent_dev_telegram.WorkerService.Leases.{Claim}
use zero_agent_dev_telegram.WorkerService.Transitions.{TaskCall}
use zero_agent_dev_telegram.WorkerService.Operators.{Request}

abbrev pub content : PlanRevisionContent
content = record {
  objective = "Build it";
  scope = [];
  constraints = [];
  acceptance_criteria = "it works" ∷ [];
  risks = [];
  unresolved_questions = [];
  source_event_ids = 50 ∷ [];
}

abbrev pub plan : Plan
plan = record {
  id = 100;
  project_id = 10;
  current_state = PlanState.proposed;
  current_revision_number = 1;
}

abbrev pub revision : PlanRevision
revision = record {
  id = 101;
  plan_id = 100;
  project_id = 10;
  revision_number = 1;
  content = content;
  proposed_by = 1;
  state = RevisionState.proposed;
}

abbrev pub task : ℕ → TaskState → List String → Task
task id state expected = record {
  id = id;
  execution_id = 200;
  project_id = 10;
  objective = "work";
  permitted_scope = [];
  expected_evidence = expected;
  state = state;
  completion_evidence = [];
  blocker_reason = none;
  agent_type_id = none;
  terminal_state_set_at = none;
  next_retry_at = none;
}

abbrev pub execution : Execution
execution = record {
  id = 200;
  plan_id = 100;
  plan_revision_id = 101;
  plan_handoff_id = 103;
  project_id = 10;
  state = ExecutionState.running;
  blocker_reason = none;
  idempotency_key = 103;
}

abbrev pub attempt : TaskAttempt
attempt = record {
  id = 401;
  task_id = 301;
  project_id = 10;
  attempt_number = 1;
  state = AttemptState.running;
  error_message = none;
  lease_owner = some "worker";
  lease_expires_at = some (LeaseText.instant 5000);
  completed_at = none;
}

-- The attempt's own diff, with which it proves the label of its task.
abbrev pub diff : Artifact
diff = record {
  id = 501;
  project_id = 10;
  kind = "diff";
  content = "+ line";
  provenance = some (record {
    execution_id = some 200;
    task_id = some 301;
    attempt_id = some 401;
    evidence_labels = [];
  });
}

abbrev pub db : Db
db = record {
  users =
      record { id = 1; status = UserStatus.active }
      ∷ record { id = 2; status = UserStatus.active }
      ∷ [];
  project_memberships =
      record { project_id = 10; user_id = 1; role = ProjectRole.owner }
      ∷ record { project_id = 10; user_id = 2; role = ProjectRole.viewer }
      ∷ [];
  audit_events = [];
  conversation_events =
      record {
        id = 50;
        project_id = 10;
        actor_id = 1;
        source = Source.telegram;
        external_event_id = some "update-1";
        origin_kind = EventOriginKind.authenticated_human;
        content = "please build it";
      }
      ∷ [];
  plans = plan ∷ [];
  plan_revisions = revision ∷ [];
  plan_approvals = [];
  plan_handoffs = [];
  executions = execution ∷ [];
  tasks =
      task 301 TaskState.running ("diff" ∷ [])
      ∷ task 302 TaskState.pending []
      ∷ task 303 TaskState.ready []
      ∷ task 304 TaskState.failed []
      ∷ [];
  task_dependencies = record { task_id = 302; depends_on_task_id = 301 } ∷ [];
  task_attempts = attempt ∷ [];
  execution_snapshots = [];
  artifacts = diff ∷ [];
  artifact_provenance = [];
}

abbrev pub world : World
world = record { db = db; now = 1000; next_token = 900 }

abbrev pub verdict : Verdict
verdict = record {
  plan_id = 100;
  project_id = 10;
  actor_id = 1;
  expected_revision_number = 1;
  idempotency_key = "press-1";
  source = Source.telegram;
  redacted_reason = none;
}

abbrev pub proposal : Proposal
proposal = record {
  plan_id = 100;
  project_id = 10;
  actor_id = 1;
  content = content;
  source = Source.web;
}

abbrev pub claim : Claim
claim = record {
  execution_id = 200;
  task_id = 303;
  project_id = 10;
  actor_id = 1;
  lease_owner = "worker";
  lease_duration_seconds = 60;
  source = Source.system;
}

abbrev pub call : TaskCall
call = record {
  execution_id = 200;
  task_id = 301;
  attempt_id = 401;
  project_id = 10;
  actor_id = 1;
  lease_owner = some "worker";
  source = Source.system;
}

abbrev pub request : Request
request = record {
  execution_id = 200;
  task_id = 304;
  project_id = 10;
  actor_id = 1;
  source = Source.web;
}
