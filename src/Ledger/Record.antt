-- ===== src/Ledger/Record.antt =====
-- `TenantArtifactProcessingRepository` of services/api/netops_api/application/artifact_processing.py.
-- The identity that PostgreSQL draws for a row is an argument.
use netops_copilot.Prelude.{ℕ, ◌==◌, nat_eq, not, Option, none, some, List}
use netops_copilot.Prelude.Lists.{take, keep}
use netops_copilot.Prelude.Text.{Text}
use netops_copilot.Prelude.Json.{integer, obj, field, end}
use netops_copilot.Errors.{processing_state_conflict}
use netops_copilot.Ledger.Commands.{
  ArtifactScanDisposition, clean, rejected, unavailable, RecordArtifactScanOutcome,
  RecordedArtifactScanOutcome,
}
use netops_copilot.Exec.{
  Exec, pure, lift, gets, or_raise, raise_if, atomic, one_or_none, ◌>>=◌, ◌>>◌,
}
use netops_copilot.Keyset.Order.{Key, StrictOrder, descending3}
use netops_copilot.Keyset.Sort.{sort}
use netops_copilot.Ledger.Tables.{
  ProcessingState, quarantined, verified, failed, ProcessingState-discrete, processing_state_eq,
  ProcessingRow, Ledger,
}
use netops_copilot.Ledger.Trigger.{is_of, recency, insert_processing_event}

abbrev pub active_key : ProcessingRow → ℕ × Key
active_key r = (r.attempt, recency r)

-- `ORDER BY attempt DESC, occurred_at DESC, id DESC`
abbrev pub active_first : StrictOrder ProcessingRow
active_first = descending3 active_key

-- `_SELECT_ACTIVE_QUARANTINED_ATTEMPT`. Its FOR UPDATE makes the method one step; the privilege
-- that the clause wants of the database role is not modelled.
unfoldable pub select_active_attempt : ℕ → ℕ → Ledger → List ProcessingRow
select_active_attempt org artifact_id l =
    take 1 (sort active_first (keep (is_of org artifact_id) l.events))

abbrev pub outcome_state : ArtifactScanDisposition → ProcessingState
outcome_state clean = verified
outcome_state rejected = failed
outcome_state unavailable = failed

abbrev pub failure_code : ArtifactScanDisposition → Text → Option Text
failure_code clean reason = none
failure_code rejected reason = some reason
failure_code unavailable reason = some reason

-- The row of `_INSERT_SCAN_OUTCOME`
abbrev pub outcome_row : ℕ → ℕ → RecordArtifactScanOutcome → ProcessingRow → ProcessingRow
outcome_row org id c active = record {
  id = id;
  organization_id = org;
  artifact_id = c.artifact_id;
  attempt = active.attempt;
  state = outcome_state c.disposition;
  processor = c.processor;
  processor_version = c.processor_version;
  failure_code = failure_code c.disposition c.reason_code;
  result_summary = obj (field "scanner_checks_completed" (integer 1) end);
  correlation_id = active.correlation_id;
  created_by_actor_id = none;
  occurred_at = c.occurred_at.instant;
}

abbrev pub recorded : RecordArtifactScanOutcome → ProcessingRow → RecordedArtifactScanOutcome
recorded c active = record {
  artifact_id = c.artifact_id;
  attempt = active.attempt;
  state = outcome_state c.disposition;
  occurred_at = c.occurred_at.instant;
}

module _ (organization_id : ℕ) (id : ℕ) (command : RecordArtifactScanOutcome) where
  -- What follows the SELECT.
  unfoldable pub append_outcome : Option ProcessingRow → Exec Ledger RecordedArtifactScanOutcome
  unfolding ProcessingState-discrete
  append_outcome found = do
    active ← or_raise found (processing_state_conflict command.artifact_id)
    raise_if (not (active.state == quarantined)) (processing_state_conflict command.artifact_id)
    insert_processing_event (outcome_row organization_id id command active)
    pure (recorded command active)

  -- `record_scan_outcome`
  unfoldable pub record_scan_outcome : Exec Ledger RecordedArtifactScanOutcome
  record_scan_outcome = atomic (do
    rows ← gets (select_active_attempt organization_id command.artifact_id)
    found ← lift (one_or_none rows)
    append_outcome found)
