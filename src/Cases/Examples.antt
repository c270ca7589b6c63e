-- ===== src/Cases/Examples.antt =====
-- The theorems on services/api/netops_api/application/cases.py at concrete commands.
use netops_copilot.Prelude.{
  ◌≡◌, ◌⊎◌, refl, ◌==◌, list_eq, nat_eq, contains, true, false, none, some, List, [], ◌∷◌,
  if◌then◌else◌,
}
use netops_copilot.Prelude.Int.{pos}
use netops_copilot.Cases.Listing.{CaseListQuery}
use netops_copilot.Prelude.Lists.{any}
use netops_copilot.Prelude.Text.{Text, codes}
use netops_copilot.Prelude.Time.{utc}
use netops_copilot.Prelude.Json.{Json, null}
use netops_copilot.Errors.{version_conflict, idempotency_conflict, ok, err, runtime_error}
use netops_copilot.Domain.States.{
  new, investigating, needs_information, operator, human, allowed_transitions, CaseState-discrete,
  ActorKind-discrete, CaseRole-discrete, confirm_roles, case_write_roles, resolve_roles, intersects,
  event_types, case_state_eq,
}
use netops_copilot.Domain.Cases.{
  Actor, CaseSnapshot, TransitionCommand, TransitionOutcome, transition_outcome, apply_transition,
  check_command, validate_actor, validate_transition_constraints,
}
use netops_copilot.Storage.Tables.{CaseRow, Database}
use netops_copilot.Storage.Inserts.{
  guarded, insert_case_input, insert_event, insert_outbox, insert_audit, insert_transition,
  first_broken,
}
use netops_copilot.Storage.Checks.{
  btrim, is_filled, is_sha256, check_case, check_case_input, check_event, check_outbox,
  check_transition, check_edge,
}
use netops_copilot.Cases.Commands.{
  CreateCaseCommand, CreateCaseResult, CaseRecord, case_record, request_payload,
}
use netops_copilot.Cases.Statements.{
  select_case, updated_rows, has_key, insert_case, update_rows, update_case_version,
  select_case_by_idempotency,
}
use netops_copilot.Cases.History.{FreshIds, insert_event_and_outbox, insert_audit_event}
use netops_copilot.Cases.Transitions.{
  transition_row, case_update, persist_transition, transition, or_write_conflict,
}
use netops_copilot.Cases.Creation.{
  case_row, create_case, insert_optional_input, record_creation, create_or_replay,
}
use netops_copilot.Cases.Schema.{check_edge-eq_allowed, apply_transition-check}
use netops_copilot.Storage.Laws.{unless_broken}
use netops_copilot.Cases.Persisted.{
  persisted, write_conflict, history_constraints, persist_transition-cases,
}
use netops_copilot.Cases.Consistency.{IsConsistent}
use netops_copilot.Cases.Preservation.{transition-IsConsistent}
use netops_copilot.Cases.Recorded.{created_database, creation_constraints}
use netops_copilot.Cases.Created.{replay_of, create_case-cases}
use netops_copilot.Cases.Idempotency.{create_case-retry, create_case-IsConsistent}
use netops_copilot.Cases.Concurrency.{persist_transition-stale, persist_transition-one_winner}

-- A digest of the right form that tells JSON values apart by no more than their kind.
abbrev sample_digest : Json → Text
sample_digest null = codes "0000000000000000000000000000000000000000000000000000000000000000"
sample_digest _ = codes "abababababababababababababababababababababababababababababababab"

abbrev empty_database : Database
empty_database = record {
  organizations = 1 ∷ [];
  assets = [];
  cases = [];
  case_inputs = [];
  case_transitions = [];
  case_events = [];
  outbox_events = [];
  audit_events = [];
  consumer_inbox = [];
}

abbrev field_operator : Actor
field_operator = record { actor_id = 5; kind = human; roles = operator ∷ [] }

abbrev report : CreateCaseCommand
report = record {
  case_id = 100;
  event_id = 101;
  idempotency_key = codes "report-1";
  title = codes "Tunnel down";
  category = none;
  severity = "high";
  asset_id = none;
  actor = field_operator;
  correlation_id = 102;
  occurred_at = record { instant = 1000; tzinfo = utc };
  case_input = none;
}

abbrev first_ids : FreshIds
first_ids = record { outbox_id = 103; audit_event_id = 104 }

abbrev second_ids : FreshIds
second_ids = record { outbox_id = 203; audit_event_id = 204 }

abbrev reported : Database
reported = (create_case 1 sample_digest first_ids report empty_database).1

abbrev reported_result : CreateCaseResult
reported_result = record {
  case = case_record (case_row 1 (sample_digest (request_payload report)) report);
  created = true;
}

reported_success :
    create_case 1 sample_digest first_ids report empty_database ≡ (ok reported_result, reported)
unfolding guarded insert_case_input insert_event insert_outbox insert_audit btrim is_filled
    is_sha256 check_case check_case_input check_event check_outbox insert_case
    insert_event_and_outbox insert_audit_event insert_optional_input record_creation
    create_or_replay create_case request_payload
reported_success = refl

abbrev takeover : TransitionCommand
takeover = record {
  transition_id = 200;
  event_id = 201;
  case_id = 100;
  expected_version = 0;
  to_state = investigating;
  actor = field_operator;
  correlation_id = 202;
  occurred_at = record { instant = 2000; tzinfo = utc };
  approval_id = none;
  verification_note = none;
  knowledge_item_id = none;
  note = none;
}

abbrev fresh_snapshot : CaseSnapshot
fresh_snapshot = record { case_id = 100; state = new; version = 0 }

abbrev outcome : TransitionOutcome
unfolding transition_outcome
outcome = transition_outcome fresh_snapshot takeover

abbrev rival_takeover : TransitionCommand
rival_takeover = record takeover { transition_id = 300; event_id = 301 }

abbrev rival_outcome : TransitionOutcome
unfolding transition_outcome
rival_outcome = transition_outcome fresh_snapshot rival_takeover

abbrev rival_ids : FreshIds
rival_ids = record { outbox_id = 303; audit_event_id = 304 }

abbrev report_row : CaseRow
report_row = case_row 1 (sample_digest (request_payload report)) report

report_stored : select_case 1 100 reported ≡ report_row ∷ []
unfolding select_case guarded insert_case_input insert_event insert_outbox insert_audit btrim
    is_filled is_sha256 check_case check_case_input check_event check_outbox insert_case
    insert_event_and_outbox insert_audit_event insert_optional_input record_creation
    create_or_replay create_case request_payload
report_stored = refl

abbrev investigated : Database
investigated = persisted 1 second_ids outcome field_operator reported

abbrev investigated_case : CaseRecord
investigated_case =
    case_record (record report_row { state = investigating; version = 1; updated_at = 2000 })

outcome_persisted :
    persist_transition 1 second_ids outcome field_operator reported
    ≡ (ok investigated_case, investigated)
unfolding insert_transition check_transition check_edge updated_rows update_rows update_case_version
    or_write_conflict persist_transition CaseState-discrete ActorKind-discrete event_types guarded
    insert_case_input insert_event insert_outbox insert_audit btrim is_filled is_sha256 check_case
    check_case_input check_event check_outbox insert_case insert_event_and_outbox insert_audit_event
    insert_optional_input record_creation create_or_replay create_case request_payload outcome
outcome_persisted = refl

report-IsConsistent : IsConsistent reported
report-IsConsistent = create_case-IsConsistent 1 sample_digest first_ids report empty_database tt

create_case-IsConsistent_example :
    IsConsistent (create_case 1 sample_digest first_ids report empty_database).1
create_case-IsConsistent_example =
    create_case-IsConsistent 1 sample_digest first_ids report empty_database tt

transition-IsConsistent_example : IsConsistent (transition 1 second_ids takeover reported).1
transition-IsConsistent_example =
    transition-IsConsistent 1 second_ids takeover reported report-IsConsistent

persist_transition-one_winner_example :
    persist_transition 1 rival_ids rival_outcome field_operator investigated
    ≡ (err (version_conflict 100 (pos 0) 1), investigated)
unfolding outcome rival_outcome
persist_transition-one_winner_example =
    persist_transition-one_winner 1 second_ids field_operator outcome rival_outcome field_operator
      rival_ids reported investigated report_row investigated_case report_stored outcome_persisted
      refl refl

-- An outcome that was computed from version 5 of a case that stands at version 0.
abbrev stale_outcome : TransitionOutcome
stale_outcome = record outcome {
  snapshot = record { case_id = 100; state = investigating; version = 6 };
}

persist_transition-stale_example :
    persist_transition 1 second_ids stale_outcome field_operator reported
    ≡ (err (version_conflict 100 (pos 5) 0), reported)
persist_transition-stale_example =
    persist_transition-stale 1 second_ids field_operator stale_outcome reported report_row
      report_stored refl

persist_transition-cases_example :
    ((row : CaseRow) × (updated_rows 1 (case_update 1 outcome) reported.cases ≡ row ∷ [])
      × (persist_transition 1 second_ids outcome field_operator reported
          ≡ unless_broken
              (first_broken (history_constraints 1 second_ids outcome field_operator reported))
              (ok (case_record row), investigated)
              reported))
    ⊎ ((updated_rows 1 (case_update 1 outcome) reported.cases ≡ [])
        × (persist_transition 1 second_ids outcome field_operator reported ≡ (
          err (write_conflict 1 outcome.snapshot (select_case 1 outcome.snapshot.case_id reported)),
          reported,
        )))
    ⊎ ((row next : CaseRow) × (rest : List CaseRow) × (updated_rows 1
            (case_update 1 outcome)
            reported.cases
          ≡ row ∷ next ∷ rest)
        × (persist_transition 1 second_ids outcome field_operator reported ≡ (
          err (runtime_error "Multiple rows were found when one or none was required"),
          reported,
        )))
persist_transition-cases_example =
    persist_transition-cases 1 second_ids outcome field_operator reported

abbrev report_sha : Text
report_sha = sample_digest (request_payload report)

create_case-cases_example :
    ((any (has_key 1 report.idempotency_key) empty_database.cases ≡ false)
      × (create_case 1 sample_digest first_ids report empty_database
          ≡ unless_broken
              (first_broken (creation_constraints 1 report_sha first_ids report empty_database))
              (ok reported_result, created_database 1 report_sha first_ids report empty_database)
              empty_database))
    ⊎ ((any (has_key 1 report.idempotency_key) empty_database.cases ≡ true)
        × (((row : CaseRow) × (select_case_by_idempotency 1 report.idempotency_key empty_database
                ≡ row ∷ [])
              × (create_case 1 sample_digest first_ids report empty_database
                  ≡ unless_broken
                      (first_broken ((check_case report_row, "ck_cases") ∷ []))
                      (replay_of 1 report_sha report row empty_database)
                      empty_database))
            ⊎ ((row next : CaseRow) × (rest : List CaseRow) × (select_case_by_idempotency 1
                    report.idempotency_key empty_database
                  ≡ row ∷ next ∷ rest)
                × (create_case 1 sample_digest first_ids report empty_database
                    ≡ unless_broken
                        (first_broken ((check_case report_row, "ck_cases") ∷ []))
                        (
                          err (
                              runtime_error
                                "Multiple rows were found when one or none was required"),
                          empty_database,
                        )
                        empty_database))))
create_case-cases_example = create_case-cases 1 sample_digest first_ids report empty_database

report_valid : check_case report_row ≡ true
unfolding check_case is_filled is_sha256 btrim request_payload
report_valid = refl

create_case-retry_example : create_case 1 sample_digest second_ids report reported ≡ (
    if sample_digest (request_payload report) == sample_digest (request_payload report)
    then (ok (record { case = reported_result.case; created = false }), reported)
    else (err (idempotency_conflict 100 100), reported))
create_case-retry_example =
    create_case-retry 1 sample_digest first_ids report empty_database reported_result reported
      reported_success refl second_ids report refl report_valid

check_edge-eq_allowed_example :
    check_edge investigating needs_information
    ≡ contains (allowed_transitions investigating) needs_information
check_edge-eq_allowed_example = check_edge-eq_allowed investigating needs_information

takeover_accepted : apply_transition fresh_snapshot takeover ≡ ok outcome
unfolding apply_transition validate_actor validate_transition_constraints transition_outcome
    CaseState-discrete ActorKind-discrete CaseRole-discrete allowed_transitions confirm_roles
    case_write_roles resolve_roles intersects
takeover_accepted = refl

takeover_built : check_command takeover ≡ ok tt
unfolding check_command
takeover_built = refl

apply_transition-check_example :
    check_transition (transition_row 1 outcome.transition field_operator) ≡ true
apply_transition-check_example =
    apply_transition-check 1 fresh_snapshot takeover outcome takeover_built takeover_accepted

abbrev open_cases : CaseListQuery
open_cases = record {
  asset_ids = [];
  limit = pos 1;
  cursor = none;
  query = none;
  state = some new;
  severity = none;
}
