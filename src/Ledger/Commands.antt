-- ===== src/Ledger/Commands.antt =====
-- The commands of services/api/netops_api/application/artifact_processing.py.
use netops_copilot.Prelude.{ℕ, leb, ◌==◌, nat_eq, Bool, false, not, ◌&&◌, ◌||◌, [], ◌∷◌}
use netops_copilot.Prelude.Lists.{length, all}
use netops_copilot.Prelude.Text.{Text}
use netops_copilot.Prelude.Time.{Datetime, is_aware}
use netops_copilot.Errors.{value_error, Result, ◌>>◌, raise_if}
use netops_copilot.Ledger.Tables.{ProcessingState, begins_code}

pub data ArtifactScanDisposition : Type 0 where
  clean rejected unavailable : ArtifactScanDisposition

pub record RecordArtifactScanOutcome : Type 0 where
  pub artifact_id : ℕ
  pub disposition : ArtifactScanDisposition
  pub reason_code : Text
  pub processor : Text
  pub processor_version : Text
  pub occurred_at : Datetime

pub record RecordedArtifactScanOutcome : Type 0 where
  pub artifact_id : ℕ
  pub attempt : ℕ
  pub state : ProcessingState
  pub occurred_at : ℕ

-- `_SAFE_CODE.fullmatch`
unfoldable pub is_safe_code : Text → Bool
is_safe_code [] = false
is_safe_code (c ∷ s) =
    begins_code c
    && leb (length s) 127
    && all (λ (d : ℕ). begins_code d || d == b'.' || d == b'_' || d == b':' || d == b'-') s

-- `RecordArtifactScanOutcome.__post_init__`
unfoldable pub check_scan_outcome : RecordArtifactScanOutcome → Result (Unit {0})
check_scan_outcome c =
    raise_if (not (is_safe_code c.reason_code))
      (value_error "reason_code must be a 1 to 128 character safe code.")
    >> raise_if (not (is_safe_code c.processor))
        (value_error "processor must be a 1 to 128 character safe code.")
    >> raise_if (not (is_safe_code c.processor_version))
        (value_error "processor_version must be a 1 to 128 character safe code.")
    >> raise_if (not (is_aware c.occurred_at)) (value_error "occurred_at must be timezone-aware.")
