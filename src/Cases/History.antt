-- ===== src/Cases/History.antt =====
-- The immutable history of services/api/netops_api/application/cases.py: the event with its outbox
-- row, and the audit fact. A connection is the database of the tenant's transaction, and a UUID
-- that the code draws by `uuid4` is an argument.
use netops_copilot.Prelude.{ℕ, nat_eq, list_eq, String, Option, none, some, ◌++◌}
use netops_copilot.Prelude.Text.{Text, codes}
use netops_copilot.Prelude.Json.{Json, str, integer, obj, end, field, Fields, nullable}
use netops_copilot.Prelude.Uuid.{uuid_text}
use netops_copilot.Exec.{Exec, ◌>>◌}
use netops_copilot.Domain.States.{ActorKind, human, service, model}
use netops_copilot.Domain.Cases.{Actor, CaseEventCommand}
use netops_copilot.Storage.Tables.{EventRow, OutboxRow, AuditRow, Database}
use netops_copilot.Storage.Inserts.{insert_event, insert_outbox, insert_audit}
use netops_copilot.Cases.Commands.{uuid_json}

-- The UUIDs that one command draws.
pub record FreshIds : Type 0 where
  pub outbox_id : ℕ
  pub audit_event_id : ℕ

-- `ActorKind.value`
abbrev kind_value : ActorKind → String
kind_value human = "human"
kind_value service = "service"
kind_value model = "model"

-- `_audit_subject`
unfoldable pub audit_subject : Actor → Text
audit_subject a = codes (kind_value a.kind) ++ codes ":" ++ uuid_text a.actor_id

abbrev sha256_field : Option Text → Fields
sha256_field none = end
sha256_field (some s) = field "request_sha256" (str s) end

-- The payload that the event and its outbox row share.
abbrev pub event_payload : CaseEventCommand → Option ℕ → Option Text → Json
event_payload event transition_id request_sha256 = obj (
    field "case_id" (uuid_json event.case_id) (
      field "aggregate_version" (integer event.aggregate_version) (
        field "transition_id" (nullable uuid_json transition_id) (
          field "actor_id" (uuid_json event.actor_id) (
            field "correlation_id" (uuid_json event.correlation_id)
              (sha256_field request_sha256))))))

module _ (organization_id : ℕ) where
  abbrev pub event_row : CaseEventCommand → Option ℕ → Option Text → EventRow
  event_row event transition_id request_sha256 = record {
    id = event.event_id;
    organization_id = organization_id;
    case_id = event.case_id;
    transition_id = transition_id;
    event_type = event.event_type;
    aggregate_version = event.aggregate_version;
    actor_id = some event.actor_id;
    correlation_id = event.correlation_id;
    payload = event_payload event transition_id request_sha256;
    occurred_at = event.occurred_at.instant;
  }

  abbrev pub outbox_row : FreshIds → CaseEventCommand → Option ℕ → Option Text → OutboxRow
  outbox_row ids event transition_id request_sha256 = record {
    id = ids.outbox_id;
    organization_id = organization_id;
    case_id = event.case_id;
    case_event_id = event.event_id;
    event_type = event.event_type;
    aggregate_version = event.aggregate_version;
    correlation_id = event.correlation_id;
    payload = event_payload event transition_id request_sha256;
    available_at = event.occurred_at.instant;
    published_at = none;
    attempt_count = 0;
    last_error = none;
    locked_at = none;
    locked_by = none;
    created_at = event.occurred_at.instant;
  }

  abbrev pub audit_row : FreshIds → Actor → String → ℕ → ℕ → Json → AuditRow
  audit_row ids actor action correlation_id occurred_at details = record {
    id = ids.audit_event_id;
    organization_id = organization_id;
    actor_subject = audit_subject actor;
    action = action;
    correlation_id = correlation_id;
    details = details;
    occurred_at = occurred_at;
  }

  -- `_insert_event_and_outbox`
  unfoldable pub insert_event_and_outbox :
      FreshIds → CaseEventCommand → Option ℕ → Option Text → Exec Database (Unit {0})
  insert_event_and_outbox ids event transition_id request_sha256 =
      insert_event (event_row event transition_id request_sha256)
      >> insert_outbox (outbox_row ids event transition_id request_sha256)

  -- `_insert_audit_event`
  unfoldable pub insert_audit_event :
      FreshIds → Actor → String → ℕ → ℕ → Json → Exec Database (Unit {0})
  insert_audit_event ids actor action correlation_id occurred_at details =
      insert_audit (audit_row ids actor action correlation_id occurred_at details)
