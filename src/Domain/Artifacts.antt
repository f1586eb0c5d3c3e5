-- ===== src/Domain/Artifacts.antt =====
-- src/zero/domain/artifacts.py, as far as completion evidence reads it: artifacts and the provenance
-- rows of each store. The JSON text of a provenance is the record that it parses to, or `none`.
use zero_agent_dev_telegram.Common.{ℕ, Option, List, String}
use zero_agent_dev_telegram.Domain.Identity.{ProjectId}

abbrev pub ArtifactId : Type 0
ArtifactId = ℕ

pub record Provenance : Type 0 where
  pub execution_id : Option ℕ
  pub task_id : Option ℕ
  pub attempt_id : Option ℕ
  pub evidence_labels : List String

pub record Artifact : Type 0 where
  pub id : ArtifactId
  pub project_id : ProjectId
  pub kind : String
  pub content : String
  pub provenance : Option Provenance

pub record ArtifactProvenance : Type 0 where
  pub project_id : ProjectId
  pub artifact_id : ArtifactId
  pub provenance : Option Provenance
