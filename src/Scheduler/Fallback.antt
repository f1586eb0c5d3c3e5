-- ===== src/Scheduler/Fallback.antt =====
-- The graph that src/zero/app/scheduler_service.py makes of a revision, whatever its decomposer does.
use zero_agent_dev_telegram.Common.{
  ◌≡◌, refl, arith, ℕ, Bool, true, false, not, Option, none, some, String, List, [], ◌∷◌, all, map,
  is_empty,
}
use zero_agent_dev_telegram.Domain.Plans.{PlanRevision}
use zero_agent_dev_telegram.Database.{World}
use zero_agent_dev_telegram.Exec.{Result, ok, err}
use zero_agent_dev_telegram.WorkerService.Specs.{TaskSpec}
use zero_agent_dev_telegram.Scheduler.Handoffs.{
  Graph, Decomposer, adopt, completed_spec, task_specs_for_revision,
}

abbrev pub asks_evidence : TaskSpec → Bool
asks_evidence spec = not (is_empty spec.expected_evidence)

completed_specs-ask :
    (revision : PlanRevision) (evidence : List String) (agent_type : Option ℕ)
    (specs : List TaskSpec)
    → is_empty evidence ≡ false
    → all asks_evidence (map (completed_spec revision evidence agent_type) specs) ≡ true
completed_specs-ask revision evidence agent_type [] some_evidence = refl
completed_specs-ask revision evidence agent_type (spec ∷ specs) some_evidence =
    ground (arith, completed_specs-ask revision evidence agent_type specs)

-- A graph with a task, each of whose tasks must bring evidence.
abbrev pub Usable : Result Graph × World → Type 0
Usable x =
    (graph : Graph) × (w : World) × (x ≡ (ok graph, w))
    × (is_empty graph.0 ≡ false)
    × (all asks_evidence graph.0 ≡ true)

adopt-Usable :
    (revision : PlanRevision) (evidence : List String) (agent_type : Option ℕ)
    (x : Result (Option Graph) × World)
    → is_empty evidence ≡ false
    → Usable (adopt revision evidence agent_type x)
adopt-Usable revision evidence agent_type (ok (some (spec ∷ specs, dependencies)), w) h =
    (_, w, refl, refl, completed_specs-ask revision evidence agent_type (spec ∷ specs) h)
adopt-Usable revision evidence agent_type (ok (some ([], dependencies)), w) h =
    (_, w, refl, refl, ground arith)
adopt-Usable revision evidence agent_type (ok none, w) h = (_, w, refl, refl, ground arith)
adopt-Usable revision evidence agent_type (err e, w) h = (_, w, refl, refl, ground arith)

-- Decomposition never stands in the way: with a decomposer that is missing, raises, returns nothing or
-- returns a graph, the scheduler has a graph with a task, and each of its tasks must bring evidence, if
-- the scheduler's own default asks for some.
pub task_specs_for_revision-Usable :
    (decomposer : Option Decomposer) (revision : PlanRevision) (evidence : List String)
    (agent_type : Option ℕ) (w : World)
    → is_empty evidence ≡ false
    → Usable (task_specs_for_revision decomposer revision evidence agent_type w)
unfolding task_specs_for_revision
task_specs_for_revision-Usable none revision evidence agent_type w h =
    (_, w, refl, refl, ground arith)
task_specs_for_revision-Usable (some decompose) revision evidence agent_type w h =
    adopt-Usable revision evidence agent_type (decompose revision w) h
