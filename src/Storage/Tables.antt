-- ===== src/Storage/Tables.antt =====
-- The tables of services/api/alembic/versions that the services read and write, as lists of rows
-- in no particular order. Timestamps are instants: `timestamptz` keeps no zone.
use netops_copilot.Prelude.{ℕ, String, Option, List}
use netops_copilot.Prelude.Text.{Text}
use netops_copilot.Prelude.Json.{Json}
use netops_copilot.Domain.States.{CaseState, ActorKind}

pub record CaseRow : Type 0 where
  pub id : ℕ
  pub organization_id : ℕ
  pub asset_id : Option ℕ
  pub title : Text
  pub category : Option Text
  pub severity : String
  pub state : CaseState
  pub version : ℕ
  pub idempotency_key : Text
  pub request_sha256 : Text
  pub created_by_actor_id : Option ℕ
  pub correlation_id : ℕ
  pub created_at : ℕ
  pub updated_at : ℕ

pub record CaseInputRow : Type 0 where
  pub id : ℕ
  pub organization_id : ℕ
  pub case_id : ℕ
  pub input_kind : Text
  pub content_sha256 : Text
  pub content : Json
  pub created_by_actor_id : Option ℕ
  pub correlation_id : ℕ
  pub created_at : ℕ

pub record TransitionRow : Type 0 where
  pub id : ℕ
  pub organization_id : ℕ
  pub case_id : ℕ
  pub from_state : CaseState
  pub to_state : CaseState
  pub version : ℕ
  pub actor_id : ℕ
  pub actor_kind : ActorKind
  pub correlation_id : ℕ
  pub approval_id : Option ℕ
  pub verification_note : Option Text
  pub knowledge_item_id : Option ℕ
  pub note : Option Text
  pub occurred_at : ℕ

-- `actor_id` is optional here since an insert may offer a NULL, which the table refuses.
pub record EventRow : Type 0 where
  pub id : ℕ
  pub organization_id : ℕ
  pub case_id : ℕ
  pub transition_id : Option ℕ
  pub event_type : String
  pub aggregate_version : ℕ
  pub actor_id : Option ℕ
  pub correlation_id : ℕ
  pub payload : Json
  pub occurred_at : ℕ

pub record OutboxRow : Type 0 where
  pub id : ℕ
  pub organization_id : ℕ
  pub case_id : ℕ
  pub case_event_id : ℕ
  pub event_type : String
  pub aggregate_version : ℕ
  pub correlation_id : ℕ
  pub payload : Json
  pub available_at : ℕ
  pub published_at : Option ℕ
  pub attempt_count : ℕ
  pub last_error : Option Text
  pub locked_at : Option ℕ
  pub locked_by : Option Text
  pub created_at : ℕ

pub record AuditRow : Type 0 where
  pub id : ℕ
  pub organization_id : ℕ
  pub actor_subject : Text
  pub action : String
  pub correlation_id : ℕ
  pub details : Json
  pub occurred_at : ℕ

pub record InboxRow : Type 0 where
  pub id : ℕ
  pub organization_id : ℕ
  pub consumer_name : Text
  pub event_id : ℕ
  pub payload_sha256 : Text
  pub processed_at : ℕ

pub record Database : Type 0 where
  pub organizations : List ℕ
  pub assets : List (ℕ × ℕ)
  pub cases : List CaseRow
  pub case_inputs : List CaseInputRow
  pub case_transitions : List TransitionRow
  pub case_events : List EventRow
  pub outbox_events : List OutboxRow
  pub audit_events : List AuditRow
  pub consumer_inbox : List InboxRow
