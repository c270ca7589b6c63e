-- ===== src/Worker/Jobs.antt =====
-- Jobs from outbox events: services/worker/netops_worker/artifact_processing.py. `UUID(text)` is a
-- parameter, which is `none` where it raises `ValueError`.
use netops_copilot.Prelude.{
  ℕ, String, ◌==◌, nat_eq, string_eq, list_eq, contains, Bool, not, ◌&&◌, Option, none, some, List,
  [], ◌∷◌, if◌then◌else◌,
}
use netops_copilot.Prelude.Lists.{all}
use netops_copilot.Prelude.Text.{Text, codes}
use netops_copilot.Prelude.Json.{Json, str, Fields, end, field}
use netops_copilot.Errors.{Exception, value_error, Result, ok, ◌>>=◌, ◌>>◌, raise_if, or_raise}
use netops_copilot.Storage.Checks.{is_sha256}
use netops_copilot.Outbox.Commands.{LeasedOutboxEvent}

pub data ArtifactKind : Type 0 where
  network_configuration incident_audio : ArtifactKind

pub data ArtifactClassification : Type 0 where
  raw redacted derived : ArtifactClassification

unfoldable pub kind_value : ArtifactKind → Text
kind_value network_configuration = codes "network-configuration"
kind_value incident_audio = codes "incident-audio"

unfoldable pub classification_value : ArtifactClassification → Text
classification_value raw = codes "raw"
classification_value redacted = codes "redacted"
classification_value derived = codes "derived"

-- `ArtifactKind(value)` and `ArtifactClassification(value)`
unfoldable pub kind_of : Text → Option ArtifactKind
unfolding kind_value
kind_of s =
    if s == kind_value network_configuration
    then some network_configuration
    else if s == kind_value incident_audio
    then some incident_audio
    else none

unfoldable pub classification_of : Text → Option ArtifactClassification
unfolding classification_value
classification_of s =
    if s == classification_value raw
    then some raw
    else if s == classification_value redacted
    then some redacted
    else if s == classification_value derived
    then some derived
    else none

pub record ArtifactProcessingJob : Type 0 where
  pub organization_id : ℕ
  pub case_id : ℕ
  pub artifact_id : ℕ
  pub artifact_kind : ArtifactKind
  pub classification : ArtifactClassification
  pub sha256_hex : Text

abbrev pub keys : Fields → List String
keys end = []
keys (field k v rest) = k ∷ keys rest

abbrev pub expected_keys : List String
expected_keys = "artifact_id" ∷ "artifact_kind" ∷ "case_id" ∷ "classification" ∷ "sha256" ∷ []

-- `set(payload) == expected_keys`
unfoldable pub has_schema : Fields → Bool
has_schema payload =
    all (contains expected_keys) (keys payload) && all (contains (keys payload)) expected_keys

-- `payload.get(key)`
abbrev pub get_field : String → Fields → Option Json
get_field key end = none
get_field key (field k v rest) =
    let later = get_field key rest in if k == key then some v else later

abbrev pub text_of : Option Json → Option Text
text_of (some (str s)) = some s
text_of _ = none

-- The error that every failure inside the `try` becomes.
abbrev pub invalid_payload : Exception
invalid_payload = value_error "artifact.completed.v1 payload is invalid."

-- `_string_payload`
unfoldable pub string_payload : Fields → String → Result Text
string_payload payload key = or_raise (text_of (get_field key payload)) invalid_payload

module _ (parse_uuid : Text → Option ℕ) where
  abbrev pub uuid_payload : Fields → String → Result ℕ
  uuid_payload payload key =
      string_payload payload key >>= λ (s : Text). or_raise (parse_uuid s) invalid_payload

  -- The `try` block, with the checks of the two constructors.
  unfoldable pub parse_completion : LeasedOutboxEvent → Result ArtifactProcessingJob
  parse_completion event = uuid_payload event.payload "case_id" >>= λ (case_id : ℕ).
      raise_if (not (case_id == event.case_id)) invalid_payload
      >> (uuid_payload event.payload "artifact_id" >>= λ (artifact_id : ℕ).
          string_payload event.payload "artifact_kind" >>= λ (kind_text : Text).
          or_raise (kind_of kind_text) invalid_payload >>= λ (kind : ArtifactKind).
          string_payload event.payload "classification" >>= λ (class_text : Text).
          or_raise (classification_of class_text) invalid_payload
          >>= λ (classification : ArtifactClassification).
              string_payload event.payload "sha256" >>= λ (sha256 : Text).
              raise_if (not (is_sha256 sha256)) invalid_payload
              >> ok (record {
                organization_id = event.organization_id;
                case_id = case_id;
                artifact_id = artifact_id;
                artifact_kind = kind;
                classification = classification;
                sha256_hex = sha256;
              }))

  -- `artifact_job_from_outbox_event`
  unfoldable pub artifact_job_from_outbox_event :
      LeasedOutboxEvent → Result (Option ArtifactProcessingJob)
  artifact_job_from_outbox_event event =
      if not (event.event_type == "artifact.completed.v1")
      then ok none
      else (raise_if (not (has_schema event.payload))
            (value_error "artifact.completed.v1 payload does not match its safe schema.")
          >> (parse_completion event >>= λ (job : ArtifactProcessingJob). ok (some job)))
