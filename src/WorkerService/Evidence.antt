-- ===== src/WorkerService/Evidence.antt =====
-- `_validate_evidence_artifacts` of src/zero/app/worker_service.py.
use zero_agent_dev_telegram.Common.{
  ℕ, Bool, false, not, ◌&&◌, ◌||◌, Option, none, some, List, [], ◌∷◌, ◌++◌, map, String, ◌==◌, leb,
  text_eq, any, all, first, select, length, is_empty, if◌then◌else◌,
}
use zero_agent_dev_telegram.Domain.Identity.{ProjectId}
use zero_agent_dev_telegram.Domain.Execution.{TaskAttemptId, Task}
use zero_agent_dev_telegram.Domain.Artifacts.{ArtifactId, Artifact, Provenance}
use zero_agent_dev_telegram.Domain.Errors.{Error}
use zero_agent_dev_telegram.Database.{Db}
use zero_agent_dev_telegram.Exec.{Exec, pure, or_raise, guard, ◌>>=◌, ◌>>◌, query}

-- _EVIDENCE_KINDS: the artifact kinds that prove a label.
unfoldable pub evidence_kinds : List (String × List String)
evidence_kinds =
    ("provider_response", "transcript" ∷ "other" ∷ [])
    ∷ ("transcript", "transcript" ∷ [])
    ∷ (
      "artifact",
      "stdout" ∷ "stderr" ∷ "diff" ∷ "test_report" ∷ "exit_status" ∷ "other" ∷ "source_snapshot"
          ∷ "transcript" ∷ [],
    )
    ∷ ("diff", "diff" ∷ [])
    ∷ ("test_report", "test_report" ∷ [])
    ∷ ("exit_status", "exit_status" ∷ [])
    ∷ ("stdout", "stdout" ∷ [])
    ∷ ("stderr", "stderr" ∷ [])
    ∷ ("source_snapshot", "source_snapshot" ∷ [])
    ∷ []

lookup_kinds : String → List (String × List String) → Option (List String)
lookup_kinds wanted [] = none
lookup_kinds wanted ((name, kinds) ∷ rest) =
    if text_eq name wanted then some kinds else lookup_kinds wanted rest

unfoldable pub kinds_of : String → Option (List String)
unfolding evidence_kinds lookup_kinds
kinds_of label = lookup_kinds label evidence_kinds

abbrev pub member : String → List String → Bool
member s = any (text_eq s)

-- `dict.fromkeys`: the first of each, in order.
unfoldable pub distinct : List ArtifactId → List ArtifactId
distinct [] = []
distinct (x ∷ xs) = x ∷ select (λ y. not (y == x)) (distinct xs)

abbrev same_id : ℕ → Option ℕ → Bool
same_id id none = false
same_id id (some stored) = stored == id

abbrev pub matches : Task → TaskAttemptId → Option Provenance → Bool
matches task attempt_id none = false
matches task attempt_id (some p) =
    same_id task.execution_id p.execution_id
    && (same_id task.id p.task_id && same_id attempt_id p.attempt_id)

abbrev labels_of : Option Provenance → List String
labels_of none = []
labels_of (some p) = p.evidence_labels

unfoldable pub find_artifact : ProjectId → ArtifactId → Db → Option Artifact
find_artifact project id db = first (λ a. a.id == id && a.project_id == project) db.artifacts

-- The provenances that name this task and attempt: that of the column, then those of the rows.
unfoldable pub matching_rows : Task → TaskAttemptId → Artifact → Db → List (Option Provenance)
matching_rows task attempt_id artifact db = select (matches task attempt_id) (
    artifact.provenance
    ∷ map (λ r. r.provenance)
        (select (λ r. r.artifact_id == artifact.id && r.project_id == task.project_id)
          db.artifact_provenance))

unfoldable pub all_labels : List (Option Provenance) → List String
all_labels [] = []
all_labels (p ∷ rest) = labels_of p ++ all_labels rest

-- Whether an artifact proves a label: by its kind, by a label of its provenance, or, for a label
-- that no kind proves, by its own text, unless a model wrote it. `mentions` stands for the regular
-- expression: the text has the label as a word, in any case.
abbrev proves_by : (mentions : Bool) → Option (List String) → Bool → String → Bool
proves_by mentions none explicit kind = explicit || (not (text_eq kind "transcript") && mentions)
proves_by mentions (some kinds) explicit kind = member kind kinds || explicit

module _ (mentions : (label content : String) → Bool) where
  unfoldable pub proves : Artifact → List String → String → Bool
  proves artifact labels expected =
      proves_by (mentions expected artifact.content) (kinds_of expected) (member expected labels)
        artifact.kind

  -- The inner loop: the first unsatisfied label that the artifact proves, one at most.
  unfoldable pub satisfy :
      Artifact → List String → List String → (satisfied : List String) → List String
  satisfy artifact labels [] satisfied = satisfied
  satisfy artifact labels (expected ∷ rest) satisfied =
      if not (member expected satisfied) && proves artifact labels expected
      then expected ∷ satisfied
      else satisfy artifact labels rest satisfied

  -- The outer loop over the distinct ids.
  unfoldable pub examine :
      Task → TaskAttemptId → List ArtifactId → (satisfied : List String) → Exec (List String)
  examine task attempt_id [] satisfied = pure satisfied
  examine task attempt_id (id ∷ rest) satisfied = do
    row ← query (find_artifact task.project_id id)
    artifact ← or_raise Error.missing_evidence row
    rows ← query (matching_rows task attempt_id artifact)
    guard (not (is_empty rows)) Error.missing_evidence
    examine task attempt_id rest
        (satisfy artifact (all_labels rows) task.expected_evidence satisfied)

  unfoldable pub validate_evidence_artifacts :
      Task → TaskAttemptId → List ArtifactId → Exec (List ArtifactId)
  validate_evidence_artifacts task attempt_id ids = do
    guard
        (is_empty task.expected_evidence
          || leb (length task.expected_evidence) (length (distinct ids)))
        Error.missing_evidence
    satisfied ← examine task attempt_id (distinct ids) []
    guard (all (λ label. member label satisfied) task.expected_evidence) Error.missing_evidence
    pure (distinct ids)
