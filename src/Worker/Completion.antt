-- ===== src/Worker/Completion.antt =====
-- The payload of the completion event of services/api/netops_api/application/artifact_intents.py,
-- and the job that services/worker/netops_worker/artifact_processing.py makes of it.
use netops_copilot.Prelude.{ℕ, nat_eq, list_eq}
use netops_copilot.Prelude.Text.{Text}
use netops_copilot.Prelude.Json.{str, Fields, end, field}
use netops_copilot.Prelude.Uuid.{uuid_text}
use netops_copilot.Worker.Jobs.{
  ArtifactKind, ArtifactClassification, kind_value, classification_value,
}

-- What `_insert_completion_outbox` writes of an intent.
unfoldable pub completion_payload :
    (artifact_id : ℕ) → ArtifactKind → (case_id : ℕ) → ArtifactClassification → Text → Fields
completion_payload artifact_id kind case_id classification sha256 =
    field "artifact_id" (str (uuid_text artifact_id)) (
      field "artifact_kind" (str (kind_value kind)) (
        field "case_id" (str (uuid_text case_id)) (
          field "classification" (str (classification_value classification))
            (field "sha256" (str sha256) end))))
