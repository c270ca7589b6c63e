-- ===== src/Outbox/Commands.antt =====
-- Leases and leased events of services/api/netops_api/application/outbox.py, and the tests of the
-- arguments of its operations.
use netops_copilot.Prelude.{
  ℕ, ◌==◌, nat_eq, leb, ltb, String, Bool, false, not, ◌&&◌, ◌||◌, Option, none, some, List, [],
  ◌∷◌,
}
use netops_copilot.Prelude.Lists.{length, all}
use netops_copilot.Prelude.Text.{Text, is_blank}
use netops_copilot.Prelude.Time.{Datetime, is_utc}
use netops_copilot.Prelude.Json.{Json, Fields, obj, str}
use netops_copilot.Errors.{value_error, runtime_error, Result, ok, err, ◌>>=◌, raise_if}
use netops_copilot.Storage.Tables.{OutboxRow}

-- `OutboxLease`
pub record OutboxLease : Type 0 where
  pub outbox_id : ℕ
  pub lease_token : Text

-- `OutboxLease.__post_init__`
unfoldable pub check_lease : OutboxLease → Result (Unit {0})
check_lease l =
    raise_if (is_blank l.lease_token || ltb 255 (length l.lease_token))
      (value_error "lease_token must contain 1 to 255 non-blank characters.")

pub record LeasedOutboxEvent : Type 0 where
  pub outbox_id : ℕ
  pub organization_id : ℕ
  pub case_id : ℕ
  pub case_event_id : ℕ
  pub event_type : String
  pub aggregate_version : ℕ
  pub correlation_id : ℕ
  pub payload : Fields
  pub available_at : ℕ
  pub created_at : ℕ
  pub attempt_count : ℕ
  pub locked_at : ℕ
  pub locked_by : Text

-- The property `LeasedOutboxEvent.lease`, which builds and so checks a lease.
unfoldable pub lease : LeasedOutboxEvent → Result OutboxLease
lease e = do
  let l : OutboxLease = record { outbox_id = e.outbox_id; lease_token = e.locked_by }
  _ ← check_lease l
  ok l

-- `[a-z0-9]`
abbrev is_code_start : ℕ → Bool
is_code_start c = (leb b'a' c && leb c b'z') || (leb b'0' c && leb c b'9')

-- `[a-z0-9._:-]`
abbrev is_code_part : ℕ → Bool
is_code_part c = is_code_start c || c == b'.' || c == b'_' || c == b':' || c == b'-'

-- `_DELIVERY_ERROR_CODE.fullmatch`
unfoldable pub is_delivery_code : Text → Bool
is_delivery_code [] = false
is_delivery_code (c ∷ rest) = is_code_start c && (all is_code_part rest && leb (length rest) 127)

-- `_validate_worker_id`
unfoldable pub validate_worker_id : Text → Result (Unit {0})
validate_worker_id worker_id =
    raise_if (is_blank worker_id || ltb 200 (length worker_id))
      (value_error "worker_id must contain 1 to 200 non-blank characters.")

-- `_validate_utc`, with the message for the field that it names
unfoldable pub validate_utc : Datetime → String → Result (Unit {0})
validate_utc t message = raise_if (not (is_utc t)) (value_error message)

-- The payload of a row that is a string is parsed; `loads` is `json.loads`.
abbrev parsed_payload : (Text → Option Json) → Json → Result Json
parsed_payload loads (str s) = elim (loads s) [
  | none ↦ err (value_error "JSONDecodeError")
  | some j ↦ ok j
]
parsed_payload loads j = ok j

abbrev require_object : Json → Result Fields
require_object (obj fields) = ok fields
require_object _ = err (value_error "outbox payload must be a JSON object.")

abbrev require_lease : Option ℕ → Option Text → Result (ℕ × Text)
require_lease (some at) (some by) = ok (at, by)
require_lease _ _ = err (runtime_error "Leased outbox event did not retain its delivery lease.")

-- `_leased_event`
unfoldable pub leased_event : (Text → Option Json) → OutboxRow → Result LeasedOutboxEvent
leased_event loads r = do
  payload ← parsed_payload loads r.payload
  fields ← require_object payload
  held ← require_lease r.locked_at r.locked_by
  ok (record {
    outbox_id = r.id;
    organization_id = r.organization_id;
    case_id = r.case_id;
    case_event_id = r.case_event_id;
    event_type = r.event_type;
    aggregate_version = r.aggregate_version;
    correlation_id = r.correlation_id;
    payload = fields;
    available_at = r.available_at;
    created_at = r.created_at;
    attempt_count = r.attempt_count;
    locked_at = held.0;
    locked_by = held.1;
  })

-- `tuple(_leased_event(row) for row in rows)`
unfoldable pub leased_events :
    (Text → Option Json) → List OutboxRow → Result (List LeasedOutboxEvent)
leased_events loads [] = ok []
leased_events loads (r ∷ rows) = do
  e ← leased_event loads r
  rest ← leased_events loads rows
  ok (e ∷ rest)
