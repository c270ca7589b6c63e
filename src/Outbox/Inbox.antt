-- ===== src/Outbox/Inbox.antt =====
-- `TenantConsumerInbox` of services/api/netops_api/application/outbox.py, and its table of
-- services/api/alembic/versions/20260715_02_case_spine.py.
use netops_copilot.Prelude.{
  ℕ, ◌==◌, nat_eq, list_eq, ltb, contains, Bool, true, false, not, ◌&&◌, ◌||◌, Option, none, some,
  List, [], ◌∷◌, map, if◌then◌else◌,
}
use netops_copilot.Prelude.Lists.{length, any, keep}
use netops_copilot.Prelude.Text.{Text, strip, is_blank}
use netops_copilot.Prelude.Time.{Datetime}
use netops_copilot.Prelude.Json.{Json}
use netops_copilot.Errors.{
  value_error, runtime_error, integrity_error, consumer_payload_mismatch, ok, err,
}
use netops_copilot.Exec.{Exec, pure, lift, gets, or_raise, raise_if, one_or_none, ◌>>=◌, ◌>>◌}
use netops_copilot.Storage.Tables.{InboxRow, Database}
use netops_copilot.Storage.Checks.{is_filled, is_sha256}
use netops_copilot.Outbox.Commands.{validate_utc}

-- The key of `uq_consumer_inbox_deduplication`.
abbrev pub is_receipt : ℕ → Text → ℕ → InboxRow → Bool
is_receipt org consumer_name event_id r =
    r.organization_id == org && r.consumer_name == consumer_name && r.event_id == event_id

unfoldable pub check_inbox : InboxRow → Bool
check_inbox r = is_filled r.consumer_name && is_sha256 r.payload_sha256

-- `_INSERT_CONSUMER_INBOX`: the ids that it returns. A receipt with the same key makes it do
-- nothing.
unfoldable pub insert_consumer_inbox : InboxRow → Exec Database (List ℕ)
insert_consumer_inbox r db =
    if not (check_inbox r)
    then (err (integrity_error "ck_consumer_inbox"), db)
    else if any (is_receipt r.organization_id r.consumer_name r.event_id) db.consumer_inbox
    then (ok [], db)
    else if any (λ (o : InboxRow). o.id == r.id) db.consumer_inbox
    then (err (integrity_error "consumer_inbox_pkey"), db)
    else if not (contains db.organizations r.organization_id)
    then (err (integrity_error "consumer_inbox_organization_id_fkey"), db)
    else (ok (r.id ∷ []), record db { consumer_inbox = r ∷ db.consumer_inbox })

abbrev pub fingerprint_of : InboxRow → Text
fingerprint_of r = r.payload_sha256

-- `_SELECT_CONSUMER_PAYLOAD_SHA256`
unfoldable pub select_consumer_payload : ℕ → Text → ℕ → Database → List Text
select_consumer_payload org consumer_name event_id db =
    map fingerprint_of (keep (is_receipt org consumer_name event_id) db.consumer_inbox)

module _ (organization_id : ℕ) where
  -- What follows an insert that did nothing.
  unfoldable pub compare_receipt : Text → ℕ → Text → Exec Database Bool
  compare_receipt consumer_name event_id payload_sha256 = do
    rows ← gets (select_consumer_payload organization_id (strip consumer_name) event_id)
    row ← lift (one_or_none rows)
    existing ←
        or_raise row (runtime_error "Consumer deduplication conflict did not retain its receipt.")
    raise_if (not (existing == payload_sha256)) (consumer_payload_mismatch event_id consumer_name)
    pure false

  unfoldable pub after_insert : Text → ℕ → Text → Option ℕ → Exec Database Bool
  after_insert consumer_name event_id payload_sha256 (some id) = pure true
  after_insert consumer_name event_id payload_sha256 none =
      compare_receipt consumer_name event_id payload_sha256

  abbrev pub receipt : ℕ → Text → ℕ → Text → Datetime → InboxRow
  receipt inbox_id consumer_name event_id payload_sha256 processed_at = record {
    id = inbox_id;
    organization_id = organization_id;
    consumer_name = strip consumer_name;
    event_id = event_id;
    payload_sha256 = payload_sha256;
    processed_at = processed_at.instant;
  }

  -- `record_once`. `digest` is SHA-256 of the canonical JSON text, and `inbox_id` is the `uuid4()`.
  unfoldable pub record_once :
      (Json → Text)
      → (inbox_id : ℕ) (consumer_name : Text) (event_id : ℕ) (payload : Json)
      → (processed_at : Datetime) → Exec Database Bool
  record_once digest inbox_id consumer_name event_id payload processed_at = do
    raise_if (is_blank consumer_name || ltb 255 (length consumer_name))
        (value_error "consumer_name must contain 1 to 255 non-blank characters.")
    lift (validate_utc processed_at "processed_at must be timezone-aware UTC.")
    let payload_sha256 = digest payload
    rows ←
        insert_consumer_inbox (receipt inbox_id consumer_name event_id payload_sha256 processed_at)
    row ← lift (one_or_none rows)
    after_insert consumer_name event_id payload_sha256 row
