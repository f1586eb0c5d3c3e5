-- ===== src/Domain/Execution.antt =====
-- src/zero/domain/execution.py: the execution and task state machines and the records of the graph.
use zero_agent_dev_telegram.Common.{ℕ, Bool, true, false, Option, List, [], ◌∷◌, String, ◌==◌, any}
use zero_agent_dev_telegram.Domain.Identity.{ProjectId}
use zero_agent_dev_telegram.Domain.Plans.{PlanId, PlanRevisionId, PlanHandoffId}

abbrev pub ExecutionId : Type 0
ExecutionId = ℕ

abbrev pub TaskId : Type 0
TaskId = ℕ

abbrev pub TaskAttemptId : Type 0
TaskAttemptId = ℕ

pub data ExecutionState : Type 0 where
  pending running paused completed failed cancelled : ExecutionState

abbrev execution_state_index : ExecutionState → ℕ
execution_state_index ExecutionState.pending = 0
execution_state_index ExecutionState.running = 1
execution_state_index ExecutionState.paused = 2
execution_state_index ExecutionState.completed = 3
execution_state_index ExecutionState.failed = 4
execution_state_index ExecutionState.cancelled = 5

abbrev pub execution_state_eq : ExecutionState → ExecutionState → Bool
execution_state_eq a b = execution_state_index a == execution_state_index b

unfoldable pub execution_transitions : ExecutionState → List ExecutionState
execution_transitions ExecutionState.pending =
    ExecutionState.running ∷ ExecutionState.cancelled ∷ []
execution_transitions ExecutionState.running =
    ExecutionState.paused ∷ ExecutionState.completed ∷ ExecutionState.failed
    ∷ ExecutionState.cancelled ∷ []
execution_transitions ExecutionState.paused = ExecutionState.running ∷ ExecutionState.cancelled ∷ []
execution_transitions ExecutionState.completed = []
execution_transitions ExecutionState.failed = []
execution_transitions ExecutionState.cancelled = []

unfoldable pub is_valid_execution_transition : ExecutionState → ExecutionState → Bool
unfolding execution_transitions
is_valid_execution_transition from_state to_state =
    any (execution_state_eq to_state) (execution_transitions from_state)

pub data TaskState : Type 0 where
  pending ready running completed failed blocked cancelled : TaskState

abbrev task_state_index : TaskState → ℕ
task_state_index TaskState.pending = 0
task_state_index TaskState.ready = 1
task_state_index TaskState.running = 2
task_state_index TaskState.completed = 3
task_state_index TaskState.failed = 4
task_state_index TaskState.blocked = 5
task_state_index TaskState.cancelled = 6

abbrev pub task_state_eq : TaskState → TaskState → Bool
task_state_eq a b = task_state_index a == task_state_index b

unfoldable pub task_transitions : TaskState → List TaskState
task_transitions TaskState.pending = TaskState.ready ∷ TaskState.cancelled ∷ []
task_transitions TaskState.ready = TaskState.running ∷ TaskState.cancelled ∷ TaskState.blocked ∷ []
task_transitions TaskState.running =
    TaskState.completed ∷ TaskState.failed ∷ TaskState.blocked ∷ TaskState.cancelled ∷ []
task_transitions TaskState.completed = []
task_transitions TaskState.failed = TaskState.ready ∷ TaskState.cancelled ∷ []
task_transitions TaskState.blocked = TaskState.ready ∷ TaskState.cancelled ∷ []
task_transitions TaskState.cancelled = []

-- TERMINAL_TASK_STATES and BLOCKING_TASK_STATES.
abbrev pub is_terminal_task_state : TaskState → Bool
is_terminal_task_state TaskState.completed = true
is_terminal_task_state TaskState.cancelled = true
is_terminal_task_state _ = false

abbrev pub is_blocking_task_state : TaskState → Bool
is_blocking_task_state TaskState.failed = true
is_blocking_task_state TaskState.blocked = true
is_blocking_task_state TaskState.cancelled = true
is_blocking_task_state _ = false

unfoldable pub is_valid_task_transition : TaskState → TaskState → Bool
unfolding task_transitions
is_valid_task_transition from_state to_state =
    any (task_state_eq to_state) (task_transitions from_state)

pub data AttemptState : Type 0 where
  running succeeded failed cancelled unknown : AttemptState

abbrev pub attempt_is_running : AttemptState → Bool
attempt_is_running AttemptState.running = true
attempt_is_running _ = false

pub record Execution : Type 0 where
  pub id : ExecutionId
  pub plan_id : PlanId
  pub plan_revision_id : PlanRevisionId
  pub plan_handoff_id : PlanHandoffId
  pub project_id : ProjectId
  pub state : ExecutionState
  pub blocker_reason : Option String
  pub idempotency_key : PlanHandoffId

-- An item of `completion_evidence`: the id of a durable artifact, or a label that was provided.
pub data Evidence : Type 0 where
  artifact : ℕ → Evidence
  label : String → Evidence

pub record Task : Type 0 where
  pub id : TaskId
  pub execution_id : ExecutionId
  pub project_id : ProjectId
  pub objective : String
  pub permitted_scope : List String
  pub expected_evidence : List String
  pub state : TaskState
  pub completion_evidence : List Evidence
  pub blocker_reason : Option String
  pub agent_type_id : Option ℕ
  pub terminal_state_set_at : Option ℕ
  pub next_retry_at : Option String

pub record TaskDependency : Type 0 where
  pub task_id : TaskId
  pub depends_on_task_id : TaskId

-- The text of a lease column: an instant, or text that `datetime.fromisoformat` refuses.
pub data LeaseText : Type 0 where
  instant : ℕ → LeaseText
  malformed : LeaseText

pub record TaskAttempt : Type 0 where
  pub id : TaskAttemptId
  pub task_id : TaskId
  pub project_id : ProjectId
  pub attempt_number : ℕ
  pub state : AttemptState
  pub error_message : Option String
  pub lease_owner : Option String
  pub lease_expires_at : Option LeaseText
  pub completed_at : Option ℕ

-- What the JSON document of a snapshot records.
pub record ExecutionSnapshot : Type 0 where
  pub id : ℕ
  pub execution_id : ExecutionId
  pub project_id : ProjectId
  pub snapshot_version : ℕ
  pub execution_state : ExecutionState
  pub blocker_reason : Option String
  pub tasks : List Task
  pub dependencies : List TaskDependency
  pub snapshot_reason : String
