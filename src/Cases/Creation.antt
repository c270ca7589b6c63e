-- ===== src/Cases/Creation.antt =====
-- `TenantCaseRepository.create_case` of services/api/netops_api/application/cases.py.
use netops_copilot.Prelude.{ℕ, ◌==◌, nat_eq, list_eq, true, false, not, Option, none, some}
use netops_copilot.Prelude.Text.{Text, codes}
use netops_copilot.Prelude.Json.{Json, str, integer, obj, end, field}
use netops_copilot.Errors.{runtime_error, idempotency_conflict}
use netops_copilot.Exec.{
  Exec, pure, lift, gets, atomic, or_raise, raise_if, one_or_none, ◌>>=◌, ◌>>◌,
}
use netops_copilot.Domain.States.{new}
use netops_copilot.Domain.Cases.{CaseEventCommand}
use netops_copilot.Storage.Tables.{CaseRow, Database}
use netops_copilot.Storage.Inserts.{insert_case_input}
use netops_copilot.Cases.Commands.{
  CaseInputCommand, CreateCaseCommand, uuid_json, request_payload, CaseRecord, CreateCaseResult,
  case_record,
}
use netops_copilot.Cases.Statements.{insert_case, select_case_by_idempotency}
use netops_copilot.Cases.History.{FreshIds, insert_event_and_outbox, insert_audit_event}

module _ (organization_id : ℕ) where
  -- The row of `_INSERT_CASE`, with `request_sha256` the fingerprint of the request.
  abbrev pub case_row : Text → CreateCaseCommand → CaseRow
  case_row request_sha256 c = record {
    id = c.case_id;
    organization_id = organization_id;
    asset_id = c.asset_id;
    title = c.title;
    category = c.category;
    severity = c.severity;
    state = new;
    version = 0;
    idempotency_key = c.idempotency_key;
    request_sha256 = request_sha256;
    created_by_actor_id = some c.actor.actor_id;
    correlation_id = c.correlation_id;
    created_at = c.occurred_at.instant;
    updated_at = c.occurred_at.instant;
  }

  abbrev pub created_event : CaseRecord → CreateCaseCommand → CaseEventCommand
  created_event case c = record {
    event_id = c.event_id;
    event_type = "case.created.v1";
    case_id = case.case_id;
    aggregate_version = case.version;
    transition_id = c.event_id;
    actor_id = c.actor.actor_id;
    correlation_id = c.correlation_id;
    occurred_at = c.occurred_at;
  }

  abbrev pub created_details : CaseEventCommand → Json
  created_details e = obj (
      field "case_id" (uuid_json e.case_id) (
        field "event_id" (uuid_json e.event_id) (
          field "event_type" (str (codes e.event_type))
            (field "aggregate_version" (integer e.aggregate_version) end))))

  -- `_insert_case_input`
  unfoldable pub insert_optional_input :
      ℕ → CreateCaseCommand → Option CaseInputCommand → Exec Database (Unit {0})
  insert_optional_input case_id c none = pure tt
  insert_optional_input case_id c (some i) = insert_case_input (record {
    id = i.input_id;
    organization_id = organization_id;
    case_id = case_id;
    input_kind = i.input_kind;
    content_sha256 = i.content_sha256;
    content = i.content;
    created_by_actor_id = some c.actor.actor_id;
    correlation_id = c.correlation_id;
    created_at = c.occurred_at.instant;
  })

  -- `_require_case_by_idempotency`
  unfoldable pub require_case_by_idempotency : CreateCaseCommand → Exec Database CaseRow
  require_case_by_idempotency c = do
    rows ← gets (select_case_by_idempotency organization_id c.idempotency_key)
    row ← lift (one_or_none rows)
    or_raise row (runtime_error "Case insert did not return a row and no idempotent record exists.")

  -- The retry of a request whose key is taken.
  unfoldable pub replay_case : Text → CreateCaseCommand → Exec Database CreateCaseResult
  replay_case request_sha256 c = do
    existing ← require_case_by_idempotency c
    raise_if (not (existing.request_sha256 == request_sha256))
        (idempotency_conflict existing.id c.case_id)
    pure (record { case = case_record existing; created = false })

  -- What follows the insert of a new case.
  unfoldable pub record_creation :
      Text → FreshIds → CreateCaseCommand → CaseRow → Exec Database CreateCaseResult
  record_creation request_sha256 ids c row = do
    let event = created_event (case_record row) c
    insert_optional_input row.id c c.case_input
    insert_event_and_outbox organization_id ids event none (some request_sha256)
    insert_audit_event organization_id ids c.actor "case.created" c.correlation_id
        c.occurred_at.instant (created_details event)
    pure (record { case = case_record row; created = true })

  unfoldable pub create_or_replay :
      Text → FreshIds → CreateCaseCommand → Option CaseRow → Exec Database CreateCaseResult
  create_or_replay request_sha256 ids c none = replay_case request_sha256 c
  create_or_replay request_sha256 ids c (some row) = record_creation request_sha256 ids c row

  -- `digest` is SHA-256 of the canonical JSON text.
  unfoldable pub create_case :
      (Json → Text) → FreshIds → CreateCaseCommand → Exec Database CreateCaseResult
  unfolding create_or_replay
  create_case digest ids c = atomic do
    let request_sha256 = digest (request_payload c)
    rows ← insert_case (case_row request_sha256 c)
    inserted ← lift (one_or_none rows)
    create_or_replay request_sha256 ids c inserted
