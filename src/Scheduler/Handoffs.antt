-- ===== src/Scheduler/Handoffs.antt =====
-- The handoffs that a tick of src/zero/app/scheduler_service.py claims: the graph of each approved
-- revision, by the decomposer where there is one that returns, and the executions created for them.
use zero_agent_dev_telegram.Common.{
  ℕ, ◌+◌, Bool, true, false, Option, none, some, String, List, [], ◌∷◌, ◌++◌, ◌==◌, text_eq, first,
  map, ◌&&◌, if◌then◌else◌,
}
use zero_agent_dev_telegram.Domain.Authorization.{Permission}
use zero_agent_dev_telegram.Domain.Plans.{PlanRevisionId, PlanRevision, PlanHandoff}
use zero_agent_dev_telegram.Domain.Execution.{Execution}
use zero_agent_dev_telegram.Domain.Errors.{Error}
use zero_agent_dev_telegram.Database.{World}
use zero_agent_dev_telegram.Exec.{Result, ok, err, Exec, pure, or_raise, ◌>>=◌, ◌>>◌, query}
use zero_agent_dev_telegram.Authorization.{require_permission}
use zero_agent_dev_telegram.Repository.Plan.{in_scope, list_unclaimed_handoffs}
use zero_agent_dev_telegram.WorkerService.Specs.{TaskSpec, DependencySpec}
use zero_agent_dev_telegram.WorkerService.Creation.{create_execution_from_handoff}
use zero_agent_dev_telegram.Scheduler.Retries.{Caller, is_caught}

-- A row of the listing of a project's agent types.
pub record AgentTypeRow : Type 0 where
  pub id : ℕ
  pub state : String

abbrev id_of : Option AgentTypeRow → Option ℕ
id_of none = none
id_of (some row) = some row.id

-- The oldest active type; no repository, or one that fails, gives none.
unfoldable pub default_agent_type_id : Option (List AgentTypeRow) → Option ℕ
unfolding first
default_agent_type_id none = none
default_agent_type_id (some rows) = id_of (first (λ r. text_eq r.state "active") rows)

-- What a decomposer returns for a revision, `None` included; a raise of any kind is an error here.
abbrev pub Graph : Type 0
Graph = List TaskSpec × List DependencySpec

abbrev pub Decomposer : Type 0
Decomposer = PlanRevision → World → Result (Option Graph) × World

abbrev or_default : List String → List String → List String
or_default default [] = default
or_default default (x ∷ xs) = x ∷ xs

-- The single task, and a decomposed one with the scheduler's defaults.
abbrev pub single_task : PlanRevision → List String → Option ℕ → TaskSpec
single_task revision expected_evidence agent_type_id = record {
  objective = revision.content.objective;
  permitted_scope = revision.content.scope;
  expected_evidence = expected_evidence;
  key = some "implementation";
  agent_type_id = agent_type_id;
}

abbrev pub completed_spec : PlanRevision → List String → Option ℕ → TaskSpec → TaskSpec
completed_spec revision expected_evidence agent_type_id spec = record {
  objective = spec.objective;
  permitted_scope = or_default revision.content.scope spec.permitted_scope;
  expected_evidence = or_default expected_evidence spec.expected_evidence;
  key = spec.key;
  agent_type_id = agent_type_id;
}

abbrev pub adopt :
    PlanRevision → List String → Option ℕ → Result (Option Graph) × World → Result Graph × World
adopt revision evidence agent_type (ok (some (spec ∷ specs, dependencies)), w) =
    (ok (map (completed_spec revision evidence agent_type) (spec ∷ specs), dependencies), w)
adopt revision evidence agent_type (x, w) =
    (ok (single_task revision evidence agent_type ∷ [], []), w)

-- `none` stands for a decomposer that is missing or disabled.
unfoldable pub task_specs_for_revision :
    Option Decomposer → PlanRevision → List String → Option ℕ → Exec Graph
task_specs_for_revision none revision evidence agent_type w =
    (ok (single_task revision evidence agent_type ∷ [], []), w)
task_specs_for_revision (some decompose) revision evidence agent_type w =
    adopt revision evidence agent_type (decompose revision w)

-- `PlanService.get_revision`.
unfoldable pub get_revision : Caller → PlanRevisionId → Exec PlanRevision
unfolding first
get_revision c revision_id = do
  require_permission c.actor_id c.project_id Permission.project_view c.source
  row ← query (λ db.
      first (λ r. r.id == revision_id && in_scope (some c.project_id) r.project_id)
        db.plan_revisions)
  or_raise Error.plan_revision_not_found row

-- The evidence that tasks must bring: files where there is a repository.
abbrev pub evidence_for : Bool → List String
evidence_for true = "diff" ∷ "test_report" ∷ "exit_status" ∷ []
evidence_for false = "provider_response" ∷ []

pub record Intake : Type 0 where
  pub decomposer : Option Decomposer
  pub agent_types : Option (List AgentTypeRow)
  pub has_repository : Bool

unfoldable pub claim_handoff : Intake → Caller → PlanHandoff → Exec Execution
unfolding get_revision task_specs_for_revision default_agent_type_id create_execution_from_handoff
claim_handoff intake c handoff = do
  revision ← get_revision c handoff.revision_id
  graph ←
      task_specs_for_revision intake.decomposer revision (evidence_for intake.has_repository)
        (default_agent_type_id intake.agent_types)
  create_execution_from_handoff (record {
    handoff_id = handoff.id;
    actor_id = c.actor_id;
    project_id = c.project_id;
    task_specs = graph.0;
    dependency_specs = graph.1;
    source = c.source;
  })

-- The handoffs claimed so far, and those that failed.
abbrev pub Claimed : Type 0
Claimed = ℕ × List ℕ

abbrev pub newly : PlanHandoff → ℕ
newly handoff = elim handoff.execution_id [ none ↦ 1 | some id ↦ 0 ]

abbrev pub count_claim :
    PlanHandoff → (ℕ → List ℕ → Exec Claimed) → Result Execution × World → Result Claimed × World
count_claim handoff next (ok execution, w) = next (newly handoff) [] w
count_claim handoff next (err e, w) = if is_caught e then next 0 (handoff.id ∷ []) w else (err e, w)

unfoldable pub claim_each : Intake → Caller → List PlanHandoff → Exec Claimed
unfolding claim_handoff
claim_each intake c [] w = (ok (0, []), w)
claim_each intake c (handoff ∷ rest) w =
    count_claim handoff
      (λ n failed. do others ← claim_each intake c rest; pure (n + others.0, failed ++ others.1))
      (claim_handoff intake c handoff w)

unfoldable pub claim_handoffs : Intake → Caller → ℕ → Exec Claimed
unfolding claim_each list_unclaimed_handoffs
claim_handoffs intake c max_handoffs = do
  require_permission c.actor_id c.project_id Permission.execution_start c.source
  handoffs ← query (list_unclaimed_handoffs c.project_id max_handoffs)
  claim_each intake c handoffs
