-- ===== src/Worker/Examples.antt =====
-- The worker of services/worker/netops_worker at one artifact.
use netops_copilot.Prelude.{
  ℕ, ◌==◌, nat_eq, list_eq, ◌≡◌, refl, Option, none, some, [], ◌∷◌, if◌then◌else◌, ◌++◌,
}
use netops_copilot.Prelude.Text.{Text, codes}
use netops_copilot.Prelude.Time.{utc}
use netops_copilot.Prelude.Json.{obj, end}
use netops_copilot.Prelude.Uuid.{uuid_text}
use netops_copilot.Errors.{ok}
use netops_copilot.Storage.Checks.{btrim}
use netops_copilot.Outbox.Commands.{LeasedOutboxEvent}
use netops_copilot.Keyset.Order.{precedes, precedes3}
use netops_copilot.Ledger.Tables.{
  quarantined, ProcessingState-discrete, ProcessingRow, Ledger, is_failure_code,
  check_processing_event,
}
use netops_copilot.Ledger.Commands.{is_safe_code, check_scan_outcome}
use netops_copilot.Ledger.Trigger.{
  highest_attempt, prior_row, may_follow, validate_event, store_event, insert_processing_event,
}
use netops_copilot.Ledger.Record.{
  recorded, select_active_attempt, append_outcome, record_scan_outcome,
}
use netops_copilot.Ledger.Outcomes.{with_outcome}
use netops_copilot.Worker.Jobs.{network_configuration, raw, ArtifactProcessingJob}
use netops_copilot.Worker.Processor.{
  clean, ScanResult, RedactionResult, ArtifactProcessingResult, Recorder, outcome_command,
  after_scan, process, record_result,
}
use netops_copilot.Worker.Completion.{completion_payload}
use netops_copilot.Worker.Verified.{process-verified}

abbrev sixteen : Text
sixteen = codes "0123456789abcdef"

abbrev digest : Text
digest = sixteen ++ sixteen ++ sixteen ++ sixteen

-- A reader of two identities.
abbrev two_ids : Text → Option ℕ
two_ids s = if s == uuid_text 20 then some 20 else if s == uuid_text 100 then some 100 else none

abbrev completed_event : LeasedOutboxEvent
completed_event = record {
  outbox_id = 1;
  organization_id = 1;
  case_id = 100;
  case_event_id = 2;
  event_type = "artifact.completed.v1";
  aggregate_version = 0;
  correlation_id = 9;
  payload = completion_payload 20 network_configuration 100 raw digest;
  available_at = 2000;
  created_at = 2000;
  attempt_count = 1;
  locked_at = 2500;
  locked_by = codes "worker";
}

abbrev job : ArtifactProcessingJob
job = record {
  organization_id = 1;
  case_id = 100;
  artifact_id = 20;
  artifact_kind = network_configuration;
  classification = raw;
  sha256_hex = digest;
}

abbrev scanned : ScanResult
scanned = record { disposition = clean; reason_code = codes "scan.clean" }

abbrev derivative : RedactionResult
derivative = record { derivative_sha256_hex = digest; redaction_version = codes "1" }

abbrev processed : ArtifactProcessingResult
processed = record { artifact_id = 20; scan = scanned; redaction = some derivative }

abbrev clock : Recorder
clock = record {
  processor = codes "clamav";
  processor_version = codes "1.4";
  occurred_at = record { instant = 3000; tzinfo = utc };
}

abbrev uploaded : ProcessingRow
uploaded = record {
  id = 10;
  organization_id = 1;
  artifact_id = 20;
  attempt = 1;
  state = quarantined;
  processor = codes "upload";
  processor_version = codes "1";
  failure_code = none;
  result_summary = obj end;
  correlation_id = 9;
  created_by_actor_id = none;
  occurred_at = 2000;
}

abbrev ledger : Ledger
ledger = record { artifacts = (1, 20) ∷ []; events = uploaded ∷ [] }

abbrev after_ledger : Ledger
after_ledger = with_outcome 1 11 (outcome_command clock job processed) ledger uploaded

processed_ok : process (λ _. ok scanned) (λ _. ok derivative) job ≡ ok processed
unfolding process after_scan
processed_ok = refl

recorded_ok :
    record_result clock 11 job processed ledger
    ≡ (ok (recorded (outcome_command clock job processed) uploaded), after_ledger)
unfolding record_result is_safe_code check_scan_outcome ProcessingState-discrete is_failure_code
    check_processing_event btrim highest_attempt prior_row may_follow validate_event store_event
    insert_processing_event select_active_attempt append_outcome record_scan_outcome precedes
    precedes3
recorded_ok = refl

process-verified_example :
    (s : ScanResult) × (d : RedactionResult) × (ok scanned ≡ ok s)
    × (s.disposition ≡ clean)
    × (ok derivative ≡ ok d)
    × (some derivative ≡ some d)
process-verified_example =
    process-verified (λ _. ok scanned) (λ _. ok derivative) clock 11 job processed ledger
      after_ledger (recorded (outcome_command clock job processed) uploaded) processed_ok
      recorded_ok refl
