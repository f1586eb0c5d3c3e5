-- ===== src/WorkerService/Creation.antt =====
-- `create_execution_from_handoff` of src/zero/app/worker_service.py: an approved plan's handoff
-- becomes one execution with its task graph.
use zero_agent_dev_telegram.Common.{
  Option, none, some, List, [], ◌∷◌, String, text_eq, if◌then◌else◌,
}
use zero_agent_dev_telegram.Domain.Identity.{UserId, ProjectId}
use zero_agent_dev_telegram.Domain.Authorization.{Permission}
use zero_agent_dev_telegram.Domain.Audit.{Source, Operation, Target, AuditResult}
use zero_agent_dev_telegram.Domain.Plans.{
  PlanHandoffId, PlanState, PlanHandoff, Plan, plan_state_eq,
}
use zero_agent_dev_telegram.Domain.Execution.{TaskId, ExecutionState, TaskState, Execution, Task}
use zero_agent_dev_telegram.Domain.Errors.{Error}
use zero_agent_dev_telegram.Exec.{
  Exec, pure, or_raise, guard, ◌>>=◌, ◌>>◌, query, generate_token, transaction,
}
use zero_agent_dev_telegram.Authorization.{require_permission}
use zero_agent_dev_telegram.Repository.Audit.{record_audit}
use zero_agent_dev_telegram.Repository.Plan.{get_handoff, get_plan, set_handoff_execution_id}
use zero_agent_dev_telegram.Repository.Execution.{
  get_execution_for_revision, insert_execution, insert_task, insert_dependency,
}
use zero_agent_dev_telegram.WorkerService.Loops.{for_each}
use zero_agent_dev_telegram.WorkerService.Snapshots.{snapshot}
use zero_agent_dev_telegram.WorkerService.Readiness.{recompute_readiness}
use zero_agent_dev_telegram.WorkerService.Specs.{
  TaskSpec, DependencySpec, key_of, validate_specs, detect_cycles,
}

pub record Order : Type 0 where
  pub handoff_id : PlanHandoffId
  pub actor_id : UserId
  pub project_id : ProjectId
  pub task_specs : List TaskSpec
  pub dependency_specs : List DependencySpec
  pub source : Source

-- The dictionary `key_to_task_id`; the keys are distinct.
abbrev TaskIds : Type 0
TaskIds = List (String × TaskId)

unfoldable pub lookup_task : String → TaskIds → Option TaskId
lookup_task wanted [] = none
lookup_task wanted ((key, id) ∷ rest) =
    if text_eq key wanted then some id else lookup_task wanted rest

abbrev pub new_task : Execution → TaskId → TaskSpec → Task
new_task execution id spec = record {
  id = id;
  execution_id = execution.id;
  project_id = execution.project_id;
  objective = spec.objective;
  permitted_scope = spec.permitted_scope;
  expected_evidence = spec.expected_evidence;
  state = TaskState.pending;
  completion_evidence = [];
  blocker_reason = none;
  agent_type_id = spec.agent_type_id;
  terminal_state_set_at = none;
  next_retry_at = none;
}

unfoldable pub create_tasks : Execution → List TaskSpec → Exec TaskIds
unfolding generate_token insert_task
create_tasks execution [] = pure []
create_tasks execution (spec ∷ rest) = do
  id ← generate_token
  insert_task (new_task execution id spec)
  ids ← create_tasks execution rest
  pure ((key_of spec, id) ∷ ids)

unfoldable pub create_dependency : TaskIds → DependencySpec → Exec Unit
unfolding insert_dependency
create_dependency ids dep = do
  task_id ← or_raise Error.missing_dependency (lookup_task dep.task_key ids)
  depends_on ← or_raise Error.missing_dependency (lookup_task dep.depends_on_key ids)
  insert_dependency (record { task_id = task_id; depends_on_task_id = depends_on })

-- The checks: an approved plan, and a graph that is valid.
unfoldable pub read_approved : Order → Exec (PlanHandoff × Plan)
unfolding get_handoff get_plan
read_approved o = do
  require_permission o.actor_id o.project_id Permission.execution_start o.source
  handoff ← get_handoff o.handoff_id (some o.project_id)
  plan ← get_plan handoff.plan_id (some o.project_id)
  guard (plan_state_eq plan.current_state PlanState.approved) Error.plan_not_approved
  require_permission o.actor_id plan.project_id Permission.execution_start o.source
  pure (handoff, plan)

unfoldable pub check_graph : Order → PlanHandoff → Plan → Exec Execution
unfolding generate_token validate_specs detect_cycles
check_graph o handoff plan = do
  validate_specs o.task_specs o.dependency_specs
  detect_cycles o.task_specs o.dependency_specs
  id ← generate_token
  pure (record {
    id = id;
    plan_id = plan.id;
    plan_revision_id = handoff.revision_id;
    plan_handoff_id = handoff.id;
    project_id = plan.project_id;
    state = ExecutionState.pending;
    blocker_reason = none;
    idempotency_key = handoff.id;
  })

-- The writes of a creation.
unfoldable pub store_graph : Order → PlanHandoff → Execution → Exec Execution
unfolding insert_execution create_tasks create_dependency set_handoff_execution_id
store_graph o handoff execution = do
  insert_execution execution
  ids ← create_tasks execution o.task_specs
  for_each (create_dependency ids) o.dependency_specs
  recompute_readiness execution.id
  set_handoff_execution_id handoff.id execution.id
  snapshot execution.id "before_fan_out"
  record_audit execution.project_id o.actor_id o.source Operation.execution_create
      (Target.execution execution.id) AuditResult.success (some execution.id)
  pure execution

abbrev pub persisted_or : Exec Execution → Option Execution → Exec Execution
persisted_or create none = create
persisted_or create (some persisted) = pure persisted

-- The transaction reads the revision's execution once more before it claims the handoff.
unfoldable pub commit_creation : Order → PlanHandoff → Execution → Exec Execution
unfolding transaction get_execution_for_revision store_graph
commit_creation o handoff execution = transaction do
  persisted ← query (get_execution_for_revision handoff.revision_id)
  persisted_or (store_graph o handoff execution) persisted

unfoldable pub create_new : Order → PlanHandoff → Plan → Exec Execution
unfolding check_graph commit_creation
create_new o handoff plan = do
  execution ← check_graph o handoff plan
  commit_creation o handoff execution

unfoldable pub create_execution_from_handoff : Order → Exec Execution
unfolding read_approved get_execution_for_revision
create_execution_from_handoff o = do
  found ← read_approved o
  existing ← query (get_execution_for_revision found.0.revision_id)
  persisted_or (create_new o found.0 found.1) existing
