-- ===== src/Examples/Answers.antt =====
-- Answers of a model to src/zero/app/task_decomposition.py.
use zero_agent_dev_telegram.Common.{
  ◌≡◌, ◌⊎◌, ◌<◌, length, refl, arith, true, ◌||◌, Bool, none, some, String, List, [], ◌∷◌, any, map,
  select, strip, text_length, text_eq, eq_iff, if◌then◌else◌,
}
use zero_agent_dev_telegram.Common.Json.{Json, Items, none_left, item, no_field, field, get_field}
use zero_agent_dev_telegram.Domain.Errors.{Error}
use zero_agent_dev_telegram.Exec.{ok, err}
use zero_agent_dev_telegram.WorkerService.Specs.{
  TaskSpec, DependencySpec, validate_specs, detect_cycles, key_of, has_duplicate,
}
use zero_agent_dev_telegram.WorkerService.Evidence.{member}
use zero_agent_dev_telegram.WorkerService.Acyclic.{
  IsWaiting, detect_cycles-names_cycle, detect_cycles-decides,
}
use zero_agent_dev_telegram.Decomposition.Payload.{Language}
use zero_agent_dev_telegram.Decomposition.Validation.{Outcome, validate_tasks}
use zero_agent_dev_telegram.Decomposition.Agreement.{has_long_key}
use zero_agent_dev_telegram.Decomposition.Acceptance.{validate_tasks-accepted}
use zero_agent_dev_telegram.Samples.{world}

abbrev language : Language
language = record { repr = λ v. "?"; is_key_text = λ s. true }

abbrev depends : String → Json
depends k = Json.array (item (Json.str k) none_left)

abbrev listed : Items
listed =
    item
      (Json.object
        (field "key" (Json.str "build") (field "objective" (Json.str "Build it") no_field)))
      (item
        (Json.object (
          field "key" (Json.str "test") (
            field "objective" (Json.str "Test it")
              (field "depends_on" (depends "build") no_field))))
        none_left)

abbrev spec : String → String → TaskSpec
spec key objective = record {
  objective = objective;
  permitted_scope = [];
  expected_evidence = [];
  key = some key;
  agent_type_id = none;
}

abbrev specs : List TaskSpec
specs = spec "build" "Build it" ∷ spec "test" "Test it" ∷ []

abbrev edges : List DependencySpec
edges = record { task_key = "test"; depends_on_key = "build" } ∷ []

validate_tasks-accepted_example :
    validate_specs specs edges world
    ≡ (if any has_long_key specs then (err Error.value_error, world) else (ok tt, world))
unfolding validate_tasks strip get_field text_length select
validate_tasks-accepted_example = validate_tasks-accepted language listed specs edges world refl

-- A key that stands in the answer with a space before it.
abbrev padded : Items
padded =
    item
      (Json.object
        (field "key" (Json.str "build") (field "objective" (Json.str "Build it") no_field)))
      (item
        (Json.object (
          field "key" (Json.str " test") (
            field "objective" (Json.str "Test it")
              (field "depends_on" (depends "build") no_field))))
        none_left)

padded_key_raises : validate_tasks language padded ≡ Outcome.key_error
unfolding validate_tasks strip get_field text_length
padded_key_raises = refl

-- Two tasks that wait for each other, and a third that waits for nothing.
abbrev circle : List DependencySpec
circle =
    record { task_key = "a"; depends_on_key = "b" }
    ∷ record { task_key = "b"; depends_on_key = "a" }
    ∷ []

abbrev three : List TaskSpec
three = spec "a" "Do a" ∷ spec "b" "Do b" ∷ spec "c" "Do c" ∷ []

abbrev in_circle : String → Bool
in_circle k = text_eq k "a" || text_eq k "b"

circle-IsWaiting : IsWaiting (map key_of three) circle in_circle
unfolding key_of
circle-IsWaiting = record {
  among = λ k h. ground (arith, (eq_iff k "a").0, (eq_iff k "b").0);
  waiting = λ k h. ground (arith, (eq_iff k "a").0, (eq_iff k "b").0);
}

detect_cycles-names_cycle_example :
    (named : List String) × (detect_cycles three circle world ≡ (err (Error.cycle named), world))
    × (member "a" named ≡ true)
unfolding has_duplicate key_of
detect_cycles-names_cycle_example =
    detect_cycles-names_cycle three circle in_circle "a" world refl refl circle-IsWaiting refl

detect_cycles-decides_example :
    (detect_cycles three circle world ≡ (ok tt, world))
    ⊎ ((named : List String) × (detect_cycles three circle world ≡ (err (Error.cycle named), world))
        × IsWaiting (map key_of three) circle (λ x. member x named)
        × (0 < length named))
unfolding has_duplicate key_of
detect_cycles-decides_example = detect_cycles-decides three circle world refl refl
