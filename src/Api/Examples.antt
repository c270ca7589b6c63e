-- ===== src/Api/Examples.antt =====
-- The routes of services/api/netops_api/api/cases.py at one request.
use netops_copilot.Prelude.{refl, ℕ, contains, nat_eq, ◌≡◌, ◌⊎◌, true, none, some, [], ◌∷◌, ◌++◌}
use netops_copilot.Prelude.Lists.{length}
use netops_copilot.Prelude.Text.{Text, codes, is_blank, strip, is_space}
use netops_copilot.Prelude.Time.{utc}
use netops_copilot.Errors.{Exception, ok, err}
use netops_copilot.Domain.States.{
  new, investigating, operator, platform_admin, human, intersects, CaseRole-discrete,
  case_write_roles, allowed_transitions, CaseState-discrete, ActorKind-discrete, event_types,
}
use netops_copilot.Domain.Cases.{
  check_command, TransitionCommand, check_actor, apply_transition, validate_actor,
  validate_transition_constraints, transition_outcome,
}
use netops_copilot.Storage.Tables.{CaseRow, Database}
use netops_copilot.Cases.Commands.{CaseRecord, case_record}
use netops_copilot.Cases.Statements.{select_case, update_case_version, updated_rows, update_rows}
use netops_copilot.Cases.Transitions.{
  transition, get_snapshot, persist_transition, or_write_conflict,
}
use netops_copilot.Api.Principals.{
  AuthenticatedPrincipal, is_visible_to, case_create_roles, require_case_read_access,
  require_case_create_access, require_any_role, case_read_roles, visible_case_or_not_found,
  actor_from_principal,
}
use netops_copilot.Api.Cases.{Drawn, TransitionRequest, apply_transition_request, build_command}
use netops_copilot.Storage.Checks.{
  check_transition, check_edge, check_event, check_outbox, is_filled, btrim,
}
use netops_copilot.Storage.Inserts.{
  guarded, insert_transition, insert_event, insert_outbox, insert_audit,
}
use netops_copilot.Cases.History.{insert_event_and_outbox, insert_audit_event}
use netops_copilot.Api.Stored.{apply_transition_request-stored}
use netops_copilot.Cases.Detail.{get_detail, select_timeline}
use netops_copilot.Api.Refusals.{apply_transition_request-cases}

abbrev report : CaseRow
report = record {
  id = 100;
  organization_id = 1;
  asset_id = some 40;
  title = codes "Tunnel down";
  category = none;
  severity = "high";
  state = new;
  version = 0;
  idempotency_key = codes "report-1";
  request_sha256 = [];
  created_by_actor_id = some 5;
  correlation_id = 9;
  created_at = 1000;
  updated_at = 1000;
}

abbrev tables : Database
tables = record {
  organizations = 1 ∷ [];
  assets = (1, 40) ∷ [];
  cases = report ∷ [];
  case_inputs = [];
  case_transitions = [];
  case_events = [];
  outbox_events = [];
  audit_events = [];
  consumer_inbox = [];
}

abbrev engineer : AuthenticatedPrincipal
engineer = record {
  subject = codes "engineer";
  organization_id = 1;
  roles = operator ∷ [];
  asset_ids = 40 ∷ [];
  issuer = codes "https://login.example";
  client_id = none;
}

abbrev drawn : Drawn
drawn = record {
  transition_id = 200;
  event_id = 201;
  correlation_id = 202;
  occurred_at = record { instant = 2000; tzinfo = utc };
  ids = record { outbox_id = 203; audit_event_id = 204 };
}

abbrev request : TransitionRequest
request = record {
  case_id = 100;
  expected_version = 0;
  to_state = investigating;
  approval_id = none;
  verification_note = none;
  knowledge_item_id = none;
  note = none;
}

abbrev text_length : Text → ℕ
text_length t = length t

apply_transition_request-cases_example :
    ((c : TransitionCommand) × (updated : CaseRecord) × (after : Database) × (row : CaseRow)
      × (apply_transition_request text_length engineer drawn request tables ≡ (ok updated, after))
      × (transition 1 drawn.ids c tables ≡ (ok updated, after))
      × (intersects (operator ∷ []) (platform_admin ∷ case_create_roles) ≡ true)
      × (select_case 1 100 tables ≡ row ∷ [])
      × ((row.asset_id ≡ none)
          ⊎ ((a : ℕ) × (row.asset_id ≡ some a) × (contains (40 ∷ []) a ≡ true)))
      × (c.case_id ≡ 100)
      × (c.expected_version ≡ 0)
      × (c.to_state ≡ investigating)
      × (c.actor.roles ≡ operator ∷ [])
      × (c.actor.kind ≡ human))
    ⊎ ((e : Exception) × (apply_transition_request text_length engineer drawn request tables
          ≡ (err e, tables)))
apply_transition_request-cases_example =
    apply_transition_request-cases text_length engineer drawn request tables

-- A request with a note.
abbrev noted : TransitionRequest
noted = record request { note = some (codes "on it") }

abbrev moved : CaseRecord
moved = record (case_record report) { state = investigating; version = 1; updated_at = 2000 }

abbrev stored_tables : Database
stored_tables = (apply_transition_request text_length engineer drawn noted tables).1

noted_answered :
    apply_transition_request text_length engineer drawn noted tables ≡ (ok moved, stored_tables)
unfolding apply_transition_request require_case_read_access require_case_create_access
    require_any_role intersects case_create_roles case_read_roles CaseRole-discrete build_command
    get_detail select_case select_timeline visible_case_or_not_found is_visible_to
    actor_from_principal check_actor check_command transition get_snapshot apply_transition
    validate_actor validate_transition_constraints transition_outcome allowed_transitions
    CaseState-discrete ActorKind-discrete persist_transition or_write_conflict update_case_version
    updated_rows update_rows insert_transition insert_event_and_outbox insert_event insert_outbox
    insert_audit_event insert_audit guarded check_transition check_edge check_event check_outbox
    is_filled btrim is_blank strip is_space event_types case_write_roles
noted_answered = refl

apply_transition_request-stored_example :
    (row : CaseRow) × (select_case 1 100 tables ≡ row ∷ [])
    × (row.version ≡ 0)
    × (stored_tables.case_transitions
        ≡ record {
          id = 200;
          organization_id = 1;
          case_id = 100;
          from_state = row.state;
          to_state = investigating;
          version = 1;
          actor_id = text_length (engineer.issuer ++ 31 ∷ engineer.subject);
          actor_kind = human;
          correlation_id = 202;
          approval_id = none;
          verification_note = none;
          knowledge_item_id = none;
          note = some (codes "on it");
          occurred_at = 2000;
        }
          ∷ [])
    × (moved.state ≡ investigating)
    × (moved.version ≡ 1)
apply_transition_request-stored_example =
    apply_transition_request-stored text_length engineer drawn noted tables stored_tables moved
      noted_answered
