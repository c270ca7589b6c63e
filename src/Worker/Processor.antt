-- ===== src/Worker/Processor.antt =====
-- `ArtifactProcessor` of services/worker/netops_worker/artifact_processing.py and
-- `ArtifactProcessingPersistence` of artifact_processing_persistence.py. The scanner and the redactor
-- are parameters, as they are in the code.
use netops_copilot.Prelude.{
  ℕ, leb, ◌==◌, nat_eq, list_eq, Bool, not, ◌&&◌, ◌||◌, Option, none, some,
}
use netops_copilot.Prelude.Lists.{length, all}
use netops_copilot.Prelude.Text.{Text, strip}
use netops_copilot.Prelude.Time.{Datetime, is_utc}
use netops_copilot.Errors.{value_error, Result, ok, ◌>>=◌, raise_if}
use netops_copilot.Exec.{Exec, lift, ◌>>◌ as ◌>>>◌}
use netops_copilot.Ledger.Tables.{Ledger}
use netops_copilot.Ledger.Commands.{
  ArtifactScanDisposition, RecordArtifactScanOutcome, RecordedArtifactScanOutcome,
  check_scan_outcome,
}
use netops_copilot.Ledger.Commands
use netops_copilot.Ledger.Record.{record_scan_outcome}
use netops_copilot.Worker.Jobs.{ArtifactProcessingJob}

pub data ScanDisposition : Type 0 where
  clean rejected unavailable : ScanDisposition

pub record ScanResult : Type 0 where
  pub disposition : ScanDisposition
  pub reason_code : Text

-- `[a-z0-9._:-]`
abbrev is_code_character : ℕ → Bool
is_code_character c =
    (leb b'a' c && leb c b'z')
    || (leb b'0' c && leb c b'9')
    || c == b'.'
    || c == b'_'
    || c == b':'
    || c == b'-'

-- `_validate_safe_code`, negated
unfoldable pub is_worker_code : Text → Bool
is_worker_code s = leb 1 (length s) && leb (length s) 128 && strip s == s && all is_code_character s

-- `ScanResult.__post_init__`
unfoldable pub check_scan_result : ScanResult → Result (Unit {0})
check_scan_result r =
    raise_if (not (is_worker_code r.reason_code))
      (value_error "value must be a 1 to 128 character safe code.")

pub record RedactionResult : Type 0 where
  pub derivative_sha256_hex : Text
  pub redaction_version : Text

pub record ArtifactProcessingResult : Type 0 where
  pub artifact_id : ℕ
  pub scan : ScanResult
  pub redaction : Option RedactionResult

-- `ArtifactScanDisposition(disposition.value)`
abbrev pub recorded_disposition : ScanDisposition → ArtifactScanDisposition
recorded_disposition clean = Commands.clean
recorded_disposition rejected = Commands.rejected
recorded_disposition unavailable = Commands.unavailable

module _ (scan : ArtifactProcessingJob → Result ScanResult)
    (redact : ArtifactProcessingJob → Result RedactionResult) where
  -- What follows the scan.
  unfoldable pub after_scan :
      ArtifactProcessingJob → ScanResult → ScanDisposition → Result ArtifactProcessingResult
  after_scan job result clean = redact job >>= λ (redaction : RedactionResult).
      ok (record { artifact_id = job.artifact_id; scan = result; redaction = some redaction })
  after_scan job result rejected =
      ok (record { artifact_id = job.artifact_id; scan = result; redaction = none })
  after_scan job result unavailable =
      ok (record { artifact_id = job.artifact_id; scan = result; redaction = none })

  -- `ArtifactProcessor.process`
  unfoldable pub process : ArtifactProcessingJob → Result ArtifactProcessingResult
  process job = scan job >>= λ (result : ScanResult). after_scan job result result.disposition

-- The settings of `ArtifactProcessingPersistence`, with the reading of its clock.
pub record Recorder : Type 0 where
  pub processor : Text
  pub processor_version : Text
  pub occurred_at : Datetime

abbrev pub outcome_command :
    Recorder → ArtifactProcessingJob → ArtifactProcessingResult → RecordArtifactScanOutcome
outcome_command settings job result = record {
  artifact_id = job.artifact_id;
  disposition = recorded_disposition result.scan.disposition;
  reason_code = result.scan.reason_code;
  processor = settings.processor;
  processor_version = settings.processor_version;
  occurred_at = settings.occurred_at;
}

-- `ArtifactProcessingPersistence.record`, for the row identity that PostgreSQL draws
unfoldable pub record_result :
    Recorder
    → ℕ
    → ArtifactProcessingJob
    → ArtifactProcessingResult
    → Exec Ledger RecordedArtifactScanOutcome
record_result settings id job result =
    lift (
      raise_if (not (result.artifact_id == job.artifact_id))
        (value_error "Processing result artifact does not match its job."))
    >>> (lift (
          raise_if (not (is_utc settings.occurred_at))
            (value_error "clock must return a timezone-aware UTC datetime."))
        >>> (lift (check_scan_outcome (outcome_command settings job result))
            >>> record_scan_outcome job.organization_id id (outcome_command settings job result)))
