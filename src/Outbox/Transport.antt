-- ===== src/Outbox/Transport.antt =====
-- `DurableInboxReceiptTransport` of services/worker/netops_worker/outbox_transport.py.
use netops_copilot.Prelude.{
  ltb, ◌||◌, if◌then◌else◌, ℕ, ◌==◌, nat_eq, ◌≡◌, refl, inl, inr, true, not, Bool-cases,
}
use netops_copilot.Prelude.Lists.{length}
use netops_copilot.Prelude.Text.{Text, strip, is_blank}
use netops_copilot.Prelude.Time.{Datetime, is_utc}
use netops_copilot.Prelude.Json.{Json, obj}
use netops_copilot.Errors.{value_error, Result, ok, err}
use netops_copilot.Exec.{Exec, pure, lift, atomic, settle, raise_if, ◌>>◌, resume-eq-ok}
use netops_copilot.Storage.Tables.{Database}
use netops_copilot.Outbox.Commands.{LeasedOutboxEvent, validate_utc}
use netops_copilot.Outbox.Inbox.{record_once}
use netops_copilot.Outbox.Receipts.{record_once-replay}

-- `__init__`: the consumer name that the transport keeps.
unfoldable pub checked_consumer_name : Text → Result Text
checked_consumer_name consumer_name =
    if is_blank consumer_name || ltb 255 (length consumer_name)
    then err (value_error "consumer_name must contain 1 to 255 non-blank characters.")
    else ok (strip consumer_name)

module _ (organization_id : ℕ) (digest : Json → Text) (consumer_name : Text) where
  -- `publish`, with `inbox_id` the `uuid4()` of the receipt and `processed_at` what the clock
  -- returns.
  unfoldable pub publish : ℕ → Datetime → LeasedOutboxEvent → Exec Database (Unit {0})
  publish inbox_id processed_at event = do
    raise_if (not (event.organization_id == organization_id))
        (value_error "Outbox event organization does not match this publisher scope.")
    lift (validate_utc processed_at "clock must return a timezone-aware UTC datetime.")
    atomic (
        record_once organization_id digest inbox_id consumer_name event.case_event_id
          (obj event.payload) processed_at)
    pure tt

  settle-ok :
      {A : Type 0} (m : Result A × Database) (db after : Database) (a : A)
      → settle m db ≡ (ok a, after)
      → m ≡ (ok a, after)
  settle-ok (ok x, t) db after a h = h
  settle-ok (err e, t) db after a h = cc h

  -- A handoff that has succeeded can be repeated: at any valid time it succeeds again and changes
  -- nothing.
  pub publish-repeated :
      (inbox_id inbox_id2 : ℕ) (at at2 : Datetime) (event : LeasedOutboxEvent) (db after : Database)
      → publish inbox_id at event db ≡ (ok tt, after)
      → is_utc at2 ≡ true
      → publish inbox_id2 at2 event after ≡ (ok tt, after)
  unfolding publish validate_utc
  publish-repeated inbox_id inbox_id2 at at2 event db after h utc =
      elim (Bool-cases (not (event.organization_id == organization_id))) [
        | inl p ↦ let e = rw p at h in cc e
        | inr p ↦ elim (Bool-cases (is_utc at)) [
          | inr q ↦ let e = rw (p, q) at h in cc e
          | inl q ↦
              let e = rw (p, q) at h in
              let (is_new, t, settled, same) =
                resume-eq-ok
                  (atomic
                    (record_once organization_id digest inbox_id consumer_name event.case_event_id
                      (obj event.payload) at)
                    db)
                  (λ _. pure tt) e in
              let first = settle-ok _ db t is_new settled in
              let here : t ≡ after = cc same in
              rw
                (
                  p,
                  utc,
                  record_once-replay organization_id digest consumer_name event.case_event_id
                      inbox_id inbox_id2 (obj event.payload) at at2 db after is_new
                      (rw here at first) utc,
                )
                refl
        ]
      ]
