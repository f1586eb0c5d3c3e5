-- ===== src/WorkerService/Proven.antt =====
-- What `_validate_evidence_artifacts` of src/zero/app/worker_service.py establishes.
use zero_agent_dev_telegram.Common.{
  ◌≡◌, refl, arith, Bool, true, false, not, ◌&&◌, ◌||◌, Option, none, some, List, [], ◌∷◌, String,
  ◌==◌, any, all, select, is_empty, eq_iff, leb, length, Option-cases, inl, inr,
}
use zero_agent_dev_telegram.Domain.Execution.{TaskAttemptId, Task}
use zero_agent_dev_telegram.Domain.Artifacts.{ArtifactId, Artifact}
use zero_agent_dev_telegram.Domain.Errors.{Error}
use zero_agent_dev_telegram.Database.{Db, World}
use zero_agent_dev_telegram.Exec.{Exec, ok, pure, guard, ◌>>=◌, ◌>>◌, >>=-eq-ok, guard-eq-ok}
use zero_agent_dev_telegram.WorkerService.Evidence.{
  member, distinct, find_artifact, matching_rows, all_labels, proves, satisfy, examine,
  validate_evidence_artifacts,
}

any-select :
    {A : Type 0} (p q : A → Bool) (xs : List A) → any p (select q xs) ≡ true → any p xs ≡ true
unfolding select
any-select p q [] h = h
any-select p q (x ∷ xs) h = ground (arith, any-select p q xs)

any-distinct :
    (p : ArtifactId → Bool) (xs : List ArtifactId) → any p (distinct xs) ≡ true → any p xs ≡ true
unfolding distinct
any-distinct p [] h = h
any-distinct p (x ∷ xs) h =
    ground (arith, any-select p (λ y. not (y == x)) (distinct xs), any-distinct p xs)

all-of_member :
    (q : String → Bool) (l : String) (xs : List String)
    → all q xs ≡ true
    → member l xs ≡ true
    → q l ≡ true
all-of_member q l [] h m = absurd (cc)
all-of_member q l (x ∷ xs) h m = ground (arith, eq_iff l x, all-of_member q l xs)

all-of_members :
    (q : String → Bool) (ls xs : List String)
    → all q xs ≡ true
    → all (λ l. member l xs) ls ≡ true
    → all q ls ≡ true
all-of_members q [] xs h m = refl
all-of_members q (l ∷ ls) xs h m = ground (arith, all-of_member q l xs, all-of_members q ls xs)

module _ (mentions : (label content : String) → Bool) (db : Db) (task : Task)
    (attempt_id : TaskAttemptId) where
  abbrev proves_row : String → Option Artifact → Bool
  proves_row label none = false
  proves_row label (some artifact) =
      not (is_empty (matching_rows task attempt_id artifact db))
      && proves mentions artifact (all_labels (matching_rows task attempt_id artifact db)) label

  -- The id is of an artifact of the task's project, which this attempt of the task made, and which
  -- proves the label.
  abbrev pub is_proof : String → ArtifactId → Bool
  is_proof label id = proves_row label (find_artifact task.project_id id db)

module _ (mentions : (label content : String) → Bool) where
  satisfy-all :
      (q : String → Bool) (artifact : Artifact) (labels ls satisfied : List String)
      → ((l : String) → proves mentions artifact labels l ≡ true → q l ≡ true)
      → all q satisfied ≡ true
      → all q (satisfy mentions artifact labels ls satisfied) ≡ true
  unfolding satisfy
  satisfy-all q artifact labels [] satisfied sound h = h
  satisfy-all q artifact labels (l ∷ ls) satisfied sound h =
      ground (arith, sound l, satisfy-all q artifact labels ls satisfied sound h)

  -- One round of the loop that goes on.
  examine-step :
      (task : Task) (attempt_id : TaskAttemptId) (id : ArtifactId) (ids : List ArtifactId)
      (satisfied out : List String) (w w' : World)
      → examine mentions task attempt_id (id ∷ ids) satisfied w ≡ (ok out, w')
      → (artifact : Artifact) × (find_artifact task.project_id id w.db ≡ some artifact)
        × (is_empty (matching_rows task attempt_id artifact w.db) ≡ false)
        × (examine mentions task attempt_id ids
              (satisfy mentions artifact
                (all_labels (matching_rows task attempt_id artifact w.db))
                task.expected_evidence
                satisfied)
              w
            ≡ (ok out, w'))
  unfolding examine
  examine-step task attempt_id id ids satisfied out w w' e =
      elim (Option-cases (find_artifact task.project_id id w.db)) [
        | inl missing ↦ absurd (ground arith)
        | inr (artifact, found) ↦ (artifact, found, ground arith, ground arith)
      ]

  examine-all :
      (q : String → Bool) (task : Task) (attempt_id : TaskAttemptId) (ids : List ArtifactId)
      (satisfied out : List String) (w w' : World)
      → ((l : String) → any (is_proof mentions w.db task attempt_id l) ids ≡ true → q l ≡ true)
      → all q satisfied ≡ true
      → examine mentions task attempt_id ids satisfied w ≡ (ok out, w')
      → (all q out ≡ true) × (w' ≡ w)
  unfolding examine
  examine-all q task attempt_id [] satisfied out w w' sound h e = ground arith
  examine-all q task attempt_id (id ∷ ids) satisfied out w w' sound h e =
      let (artifact, found, some_rows, rest) =
        examine-step task attempt_id id ids satisfied out w w' e in
      let labels : List String = all_labels (matching_rows task attempt_id artifact w.db) in
      examine-all q task attempt_id ids
        (satisfy mentions artifact labels task.expected_evidence satisfied) out w w'
        (λ l p. sound l (ground (arith, p)))
        (satisfy-all q artifact labels task.expected_evidence satisfied
          (λ l p. sound l (rw (found, some_rows, p) refl)) h)
        rest

  -- What follows the count, and what follows the loop.
  abbrev conclude : Task → List ArtifactId → List String → Exec (List ArtifactId)
  conclude task ids satisfied = do
    guard (all (λ l. member l satisfied) task.expected_evidence) Error.missing_evidence
    pure (distinct ids)

  abbrev accept : Task → TaskAttemptId → List ArtifactId → Exec (List ArtifactId)
  accept task attempt_id ids = do
    satisfied ← examine mentions task attempt_id (distinct ids) []
    conclude task ids satisfied

  -- Evidence that is accepted is the distinct artifacts of the call, and for each label that the
  -- task expects one of them proves it: an artifact of the task's project whose provenance names
  -- this very attempt of this task, and which by its kind, its provenance or, unless a model wrote
  -- it, its text bears the label out. Nothing is written.
  pub validate_evidence_artifacts-proves :
      (task : Task) (attempt_id : TaskAttemptId) (ids out : List ArtifactId) (w w' : World)
      → validate_evidence_artifacts mentions task attempt_id ids w ≡ (ok out, w')
      → (out ≡ distinct ids)
        × (w' ≡ w)
        × (all (λ l. any (is_proof mentions w.db task attempt_id l) ids) task.expected_evidence
            ≡ true)
  unfolding validate_evidence_artifacts
  validate_evidence_artifacts-proves task attempt_id ids out w w' e =
      let (_, rest) =
        guard-eq-ok
          (is_empty task.expected_evidence
            || leb (length task.expected_evidence) (length (distinct ids)))
          Error.missing_evidence (accept task attempt_id ids) w w' e in
      let (satisfied, v, examined, final) =
        >>=-eq-ok (examine mentions task attempt_id (distinct ids) []) (conclude task ids) w w'
          rest in
      let (all_shown, same) =
        examine-all (λ l. any (is_proof mentions w.db task attempt_id l) ids) task attempt_id
          (distinct ids) [] satisfied w v
          (λ l p. any-distinct (is_proof mentions w.db task attempt_id l) ids p) refl examined in
      let (covered, returned) =
        guard-eq-ok (all (λ l. member l satisfied) task.expected_evidence) Error.missing_evidence
          (pure (distinct ids)) v w' final in
      (
        ground arith,
        ground arith,
        all-of_members (λ l. any (is_proof mentions w.db task attempt_id l) ids)
            task.expected_evidence satisfied all_shown covered,
      )
