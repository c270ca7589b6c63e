-- ===== src/Cases/Commands.antt =====
-- The commands and records of services/api/netops_api/application/cases.py.
use netops_copilot.Prelude.{
  ℕ, nat_eq, string_eq, contains, ltb, String, Bool, false, not, ◌||◌, Option, none, some,
}
use netops_copilot.Prelude.Lists.{length}
use netops_copilot.Prelude.Text.{Text, codes, is_blank}
use netops_copilot.Prelude.Time.{Datetime, is_utc}
use netops_copilot.Prelude.Json.{Json, str, obj, end, field, nullable}
use netops_copilot.Prelude.Uuid.{uuid_text}
use netops_copilot.Errors.{value_error, Result, ◌>>◌, raise_if}
use netops_copilot.Domain.States.{CaseState}
use netops_copilot.Domain.Cases.{Actor}
use netops_copilot.Storage.Tables.{CaseRow}
use netops_copilot.Storage.Checks.{severities, is_sha256}

pub record CaseInputCommand : Type 0 where
  pub input_id : ℕ
  pub input_kind : Text
  pub content_sha256 : Text
  pub content : Json

pub record CreateCaseCommand : Type 0 where
  pub case_id : ℕ
  pub event_id : ℕ
  pub idempotency_key : Text
  pub title : Text
  pub category : Option Text
  pub severity : String
  pub asset_id : Option ℕ
  pub actor : Actor
  pub correlation_id : ℕ
  pub occurred_at : Datetime
  pub case_input : Option CaseInputCommand

abbrev is_bad_category : Option Text → Bool
is_bad_category none = false
is_bad_category (some c) = is_blank c || ltb 100 (length c)

-- `CaseInputCommand.__post_init__`; `[0-9a-f]{64}` is the pattern of the column too
unfoldable pub check_case_input_command : CaseInputCommand → Result (Unit {0})
check_case_input_command i = do
  raise_if (is_blank i.input_kind || ltb 100 (length i.input_kind))
      (value_error "input_kind must contain 1 to 100 non-blank characters.")
  raise_if (not (is_sha256 i.content_sha256))
      (value_error "content_sha256 must be a lower-case SHA-256 hex digest.")

-- `CreateCaseCommand.__post_init__`; a content of the type `Json` is serializable.
unfoldable pub check_create_command : CreateCaseCommand → Result (Unit {0})
check_create_command c = do
  raise_if (is_blank c.idempotency_key || ltb 255 (length c.idempotency_key))
      (value_error "idempotency_key must contain 1 to 255 non-blank characters.")
  raise_if (is_blank c.title || ltb 500 (length c.title))
      (value_error "title must contain 1 to 500 non-blank characters.")
  raise_if (is_bad_category c.category)
      (value_error "category must be non-blank and at most 100 characters when supplied.")
  raise_if (not (contains severities c.severity))
      (value_error "severity must be low, medium, high, or critical.")
  raise_if (not (is_utc c.occurred_at)) (value_error "occurred_at must be timezone-aware UTC.")

abbrev pub uuid_json : ℕ → Json
uuid_json u = str (uuid_text u)

abbrev input_json : CaseInputCommand → Json
input_json i = obj (
    field "content" i.content
      (field "content_sha256" (str i.content_sha256) (field "input_kind" (str i.input_kind) end)))

-- The dictionary that `request_sha256` serializes with sorted keys and hashes.
unfoldable pub request_payload : CreateCaseCommand → Json
request_payload c = obj (
    field "asset_id" (nullable uuid_json c.asset_id) (
      field "category" (nullable str c.category) (
        field "input" (nullable input_json c.case_input)
          (field "severity" (str (codes c.severity)) (field "title" (str c.title) end)))))

pub record CaseRecord : Type 0 where
  pub case_id : ℕ
  pub state : CaseState
  pub version : ℕ
  pub title : Text
  pub category : Option Text
  pub severity : String
  pub asset_id : Option ℕ
  pub created_by_actor_id : Option ℕ
  pub created_at : ℕ
  pub updated_at : ℕ

pub record CreateCaseResult : Type 0 where
  pub case : CaseRecord
  pub created : Bool

-- `_case_record`
abbrev pub case_record : CaseRow → CaseRecord
case_record r = record {
  case_id = r.id;
  state = r.state;
  version = r.version;
  title = r.title;
  category = r.category;
  severity = r.severity;
  asset_id = r.asset_id;
  created_by_actor_id = r.created_by_actor_id;
  created_at = r.created_at;
  updated_at = r.updated_at;
}
