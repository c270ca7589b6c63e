-- ===== src/Ledger/Examples.antt =====
-- The ledger of services/api/netops_api/application/artifact_processing.py at concrete outcomes.
use netops_copilot.Prelude.{◌≡◌, refl, ◌⊎◌, ℕ, none, [], ◌∷◌, arith, inl, inr}
use netops_copilot.Prelude.Text.{codes}
use netops_copilot.Prelude.Time.{utc}
use netops_copilot.Prelude.Json.{obj, end}
use netops_copilot.Errors.{Exception, processing_state_conflict, ok, err}
use netops_copilot.Storage.Checks.{btrim}
use netops_copilot.Keyset.Order.{precedes, precedes3}
use netops_copilot.Ledger.Tables.{
  quarantined, ProcessingState-discrete, ProcessingRow, Ledger, is_failure_code,
  check_processing_event,
}
use netops_copilot.Ledger.Commands.{
  ArtifactScanDisposition, clean, rejected, RecordArtifactScanOutcome,
}
use netops_copilot.Ledger.Trigger.{
  highest_attempt, prior_row, may_follow, validate_event, store_event, insert_processing_event,
}
use netops_copilot.Ledger.Branches.{own}
use netops_copilot.Ledger.Guarded.{IsGuarded, insert_processing_event-IsGuarded}
use netops_copilot.Ledger.Record.{
  select_active_attempt, outcome_row, recorded, append_outcome, record_scan_outcome,
}
use netops_copilot.Ledger.Outcomes.{with_outcome, record_scan_outcome-cases}
use netops_copilot.Ledger.Once.{record_scan_outcome-once, record_scan_outcome-behind}

abbrev completed : ProcessingRow
completed = record {
  id = 10;
  organization_id = 1;
  artifact_id = 20;
  attempt = 1;
  state = quarantined;
  processor = codes "upload";
  processor_version = codes "1";
  failure_code = none;
  result_summary = obj end;
  correlation_id = 9;
  created_by_actor_id = none;
  occurred_at = 2000;
}

abbrev ledger : Ledger
ledger = record { artifacts = (1, 20) ∷ []; events = completed ∷ [] }

abbrev outcome_at : ArtifactScanDisposition → ℕ → RecordArtifactScanOutcome
outcome_at d at = record {
  artifact_id = 20;
  disposition = d;
  reason_code = codes "scan.found";
  processor = codes "clamav";
  processor_version = codes "1.4";
  occurred_at = record { instant = at; tzinfo = utc };
}

ledger-IsGuarded : IsGuarded ledger
ledger-IsGuarded r (inl p) = rw p (inl refl)
ledger-IsGuarded r (inr m) = absurd m

insert_processing_event-IsGuarded_example :
    IsGuarded
      (insert_processing_event (outcome_row 1 11 (outcome_at clean 3000) completed) ledger).1
insert_processing_event-IsGuarded_example =
    insert_processing_event-IsGuarded (outcome_row 1 11 (outcome_at clean 3000) completed) ledger
      ledger-IsGuarded

record_scan_outcome-cases_example :
    ((active : ProcessingRow) × (select_active_attempt 1 20 ledger ≡ active ∷ [])
      × (active.state ≡ quarantined)
      × (validate_event
            (own (outcome_row 1 11 (outcome_at clean 3000) active) ledger)
            (outcome_row 1 11 (outcome_at clean 3000) active)
          ≡ ok tt)
      × (record_scan_outcome 1 11 (outcome_at clean 3000) ledger ≡ (
        ok (recorded (outcome_at clean 3000) active),
        with_outcome 1 11 (outcome_at clean 3000) ledger active,
      )))
    ⊎ ((e : Exception) × (record_scan_outcome 1 11 (outcome_at clean 3000) ledger
          ≡ (err e, ledger)))
record_scan_outcome-cases_example = record_scan_outcome-cases 1 11 (outcome_at clean 3000) ledger

abbrev verified_ledger : Ledger
verified_ledger = with_outcome 1 11 (outcome_at clean 3000) ledger completed

verified_success :
    record_scan_outcome 1 11 (outcome_at clean 3000) ledger
    ≡ (ok (recorded (outcome_at clean 3000) completed), verified_ledger)
unfolding ProcessingState-discrete is_failure_code check_processing_event btrim highest_attempt
    prior_row may_follow validate_event store_event insert_processing_event select_active_attempt
    append_outcome record_scan_outcome precedes precedes3
verified_success = refl

record_scan_outcome-once_example :
    record_scan_outcome 1 12 (outcome_at rejected 3500) verified_ledger
    ≡ (err (processing_state_conflict 20), verified_ledger)
record_scan_outcome-once_example =
    record_scan_outcome-once 1 11 (outcome_at clean 3000) ledger verified_ledger
      (recorded (outcome_at clean 3000) completed) verified_success (omega arith, tt) 12
      (outcome_at rejected 3500) refl

-- A worker whose clock is behind the clock that stamped the upload.
abbrev early_ledger : Ledger
early_ledger = with_outcome 1 11 (outcome_at clean 1000) ledger completed

early_success :
    record_scan_outcome 1 11 (outcome_at clean 1000) ledger
    ≡ (ok (recorded (outcome_at clean 1000) completed), early_ledger)
unfolding ProcessingState-discrete is_failure_code check_processing_event btrim highest_attempt
    prior_row may_follow validate_event store_event insert_processing_event select_active_attempt
    append_outcome record_scan_outcome precedes precedes3
early_success = refl

abbrev twice_ledger : Ledger
twice_ledger = with_outcome 1 12 (outcome_at rejected 1500) early_ledger completed

early_stored :
    store_event (outcome_row 1 12 (outcome_at rejected 1500) completed) early_ledger
    ≡ (ok tt, twice_ledger)
unfolding ProcessingState-discrete is_failure_code check_processing_event btrim store_event
early_stored = refl

record_scan_outcome-behind_example :
    record_scan_outcome 1 12 (outcome_at rejected 1500) early_ledger
    ≡ (ok (recorded (outcome_at rejected 1500) completed), twice_ledger)
record_scan_outcome-behind_example =
    record_scan_outcome-behind 1 11 (outcome_at clean 1000) ledger early_ledger
      (recorded (outcome_at clean 1000) completed) completed refl (omega arith) early_success 12
      (outcome_at rejected 1500) twice_ledger refl early_stored
