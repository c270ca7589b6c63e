-- ===== src/Outbox/Examples.antt =====
-- The theorems on the outbox at concrete leases.
use netops_copilot.Prelude.{
  arith, ℕ, ◌+◌, ◌≡◌, refl, ◌++◌, ◌==◌, list_eq, nat_eq, true, false, none, List, [], ◌∷◌,
  if◌then◌else◌, Option, map,
}
use netops_copilot.Prelude.Text.{Text, codes, is_space, strip, is_blank}
use netops_copilot.Prelude.Time.{Datetime, utc, is_utc}
use netops_copilot.Prelude.Json.{Json, boolean, obj, end}
use netops_copilot.Prelude.Int.{pos}
use netops_copilot.Prelude.Uuid.{uuid_text}
use netops_copilot.Errors.{outbox_lease_lost, consumer_payload_mismatch, ok, err}
use netops_copilot.Storage.Tables.{OutboxRow, Database}
use netops_copilot.Storage.Checks.{btrim, is_filled, is_sha256}
use netops_copilot.Outbox.Commands.{
  OutboxLease, LeasedOutboxEvent, leased_event, leased_events, lease, check_lease,
  validate_worker_id, validate_utc, is_delivery_code,
}
use netops_copilot.Outbox.Statements.{candidates, update_where, returned_where}
use netops_copilot.Outbox.Delivery.{update_outbox, lease_available, mark_published, schedule_retry}
use netops_copilot.Outbox.Rules.{Rowwise}
use netops_copilot.Outbox.Steps.{Operation, leasing, publishing, deliver_all, deliver_all-Rowwise}
use netops_copilot.Outbox.Leases.{leases, lease_available-exclusive, settlement-fenced}
use netops_copilot.Outbox.Inbox.{
  receipt, check_inbox, insert_consumer_inbox, after_insert, record_once,
}
use netops_copilot.Outbox.Receipts.{record_once-idempotent, record_once-replay}
use netops_copilot.Outbox.Settings.{OutboxPublisherSettings}
use netops_copilot.Outbox.Publisher.{
  Handoff, handed_off, World, PublishCycleResult, now, acknowledge, hand_off, settle_event,
  publish_events, publish_once, in_tenant,
}
use netops_copilot.Prelude.Lists.{length}
use netops_copilot.Outbox.Fates.{Fate, acknowledged, unacknowledged, put_off, number, Unfolds}
use netops_copilot.Outbox.Traces.{event_of, publish_once-trace}
use netops_copilot.Outbox.Transport.{publish, publish-repeated}

abbrev no_loads : Text → Option Json
no_loads _ = none

abbrev sample_sha256 : Json → Text
sample_sha256 (boolean b) = codes "0000000000000000000000000000000000000000000000000000000000000000"
sample_sha256 _ = codes "abababababababababababababababababababababababababababababababab"

abbrev at : ℕ → Datetime
at t = record { instant = t; tzinfo = utc }

abbrev queued : OutboxRow
queued = record {
  id = 10;
  organization_id = 1;
  case_id = 100;
  case_event_id = 101;
  event_type = "case.created.v1";
  aggregate_version = 0;
  correlation_id = 102;
  payload = obj end;
  available_at = 1000;
  published_at = none;
  attempt_count = 0;
  last_error = none;
  locked_at = none;
  locked_by = none;
  created_at = 1000;
}

abbrev store : Database
store = record {
  organizations = 1 ∷ [];
  assets = [];
  cases = [];
  case_inputs = [];
  case_transitions = [];
  case_events = [];
  outbox_events = queued ∷ record queued { id = 11; case_event_id = 111; available_at = 9000 } ∷ [];
  audit_events = [];
  consumer_inbox = [];
}

abbrev token_of : ℕ → Text
token_of u = codes "w" ++ codes ":" ++ uuid_text u

abbrev leased_queued : LeasedOutboxEvent
leased_queued = record {
  outbox_id = 10;
  organization_id = 1;
  case_id = 100;
  case_event_id = 101;
  event_type = "case.created.v1";
  aggregate_version = 0;
  correlation_id = 102;
  payload = end;
  available_at = 1000;
  created_at = 1000;
  attempt_count = 1;
  locked_at = 2000;
  locked_by = token_of 7;
}

abbrev leased_store : Database
leased_store = (lease_available 1 no_loads 7 [] (codes "w") (at 2000) (pos 50) (pos 600) store).1

store_leased :
    lease_available 1 no_loads 7 [] (codes "w") (at 2000) (pos 50) (pos 600) store
    ≡ (ok (leased_queued ∷ []), leased_store)
unfolding lease_available validate_worker_id validate_utc is_blank strip is_space update_outbox
    candidates update_where returned_where leased_events leased_event
store_leased = refl

abbrev second_store : Database
second_store =
    (lease_available 1 no_loads 8 [] (codes "w") (at 2500) (pos 50) (pos 600) leased_store).1

second_leased :
    lease_available 1 no_loads 8 [] (codes "w") (at 2500) (pos 50) (pos 600) leased_store
    ≡ (ok [], second_store)
unfolding lease_available validate_worker_id validate_utc is_blank strip is_space update_outbox
    candidates update_where returned_where leased_events leased_event
second_leased = refl

lease_available-exclusive_example : leases [] 10 ≡ false
lease_available-exclusive_example =
    lease_available-exclusive 1 no_loads 7 [] (codes "w") (at 2000) (pos 50) (pos 600) store
      leased_store (leased_queued ∷ []) store_leased 8 [] (codes "w") (at 2500) (pos 50) (pos 600)
      second_store [] second_leased (omega arith) 10 refl

abbrev foreign : OutboxLease
foreign = record { outbox_id = 10; lease_token = token_of 9 }

foreign_token : (token_of 7 == foreign.lease_token) ≡ false
unfolding uuid_text
foreign_token = refl

timeout_code : is_delivery_code (codes "broker.timeout") ≡ true
unfolding is_delivery_code
timeout_code = refl

settlement-fenced_example :
    (mark_published 1 foreign (at 3000) leased_store ≡ (err (outbox_lease_lost 10), leased_store))
    × (schedule_retry 1 foreign (at 3000) (codes "broker.timeout") leased_store
        ≡ (err (outbox_lease_lost 10), leased_store))
settlement-fenced_example =
    settlement-fenced 1 no_loads 7 [] (codes "w") (at 2000) (pos 50) (pos 600) store leased_store
      (leased_queued ∷ []) store_leased foreign (at 3000) (codes "broker.timeout") refl
      foreign_token refl timeout_code

abbrev deliveries : List Operation
deliveries =
    leasing 7 [] (codes "w") (at 2000) (pos 50) (pos 600)
    ∷ publishing (record { outbox_id = 10; lease_token = token_of 7 }) (at 2100)
    ∷ []

deliver_all-Rowwise_example :
    Rowwise store.outbox_events (deliver_all 1 no_loads deliveries store).outbox_events
deliver_all-Rowwise_example = deliver_all-Rowwise 1 no_loads deliveries store

abbrev receipts : Database
receipts = (record_once 1 sample_sha256 40 (codes "audit ") 101 (obj end) (at 2000) store).1

first_receipt :
    record_once 1 sample_sha256 40 (codes "audit ") 101 (obj end) (at 2000) store
    ≡ (ok true, receipts)
unfolding record_once validate_utc is_blank strip is_space check_inbox insert_consumer_inbox
    after_insert btrim is_filled is_sha256
first_receipt = refl

other_valid :
    check_inbox (receipt 1 41 (codes "audit ") 101 (sample_sha256 (boolean true)) (at 2500)) ≡ true
unfolding check_inbox btrim is_filled is_sha256 strip is_space
other_valid = refl

record_once-idempotent_example :
    record_once 1 sample_sha256 41 (codes "audit ") 101 (boolean true) (at 2500) receipts ≡ (
      (if sample_sha256 (obj end) == sample_sha256 (boolean true)
          then ok false
          else err (consumer_payload_mismatch 101 (codes "audit "))),
      receipts,
    )
record_once-idempotent_example =
    record_once-idempotent 1 sample_sha256 (codes "audit ") 101 40 41 (obj end) (boolean true)
      (at 2000) (at 2500) store receipts first_receipt refl other_valid

record_once-replay_example :
    record_once 1 sample_sha256 41 (codes "audit ") 101 (obj end) (at 2500) receipts
    ≡ (ok false, receipts)
record_once-replay_example =
    record_once-replay 1 sample_sha256 (codes "audit ") 101 40 41 (obj end) (at 2000) (at 2500)
      store receipts true first_receipt refl

abbrev handed_over : Database
handed_over = (publish 1 sample_sha256 (codes "audit") 40 (at 2000) leased_queued store).1

first_handoff :
    publish 1 sample_sha256 (codes "audit") 40 (at 2000) leased_queued store ≡ (ok tt, handed_over)
unfolding publish record_once validate_utc is_blank strip is_space check_inbox insert_consumer_inbox
    after_insert btrim is_filled is_sha256
first_handoff = refl

publish-repeated_example :
    publish 1 sample_sha256 (codes "audit") 41 (at 2500) leased_queued handed_over
    ≡ (ok tt, handed_over)
publish-repeated_example =
    publish-repeated 1 sample_sha256 (codes "audit") 40 41 (at 2000) (at 2500) leased_queued store
      handed_over first_handoff refl

abbrev settings : OutboxPublisherSettings
settings = record {
  worker_id = codes "w";
  batch_size = pos 50;
  lease_for = pos 600;
  retry_after = pos 300;
  poll_interval = pos 10;
}

abbrev clock : ℕ → Datetime
clock n = at (2000 + n)

abbrev accepting : LeasedOutboxEvent → Database → Handoff × Database
accepting e db = (handed_off, db)

abbrev idle_world : World
idle_world = record { database = store; ticks = 0 }

abbrev one_published : PublishCycleResult
one_published = record { leased = 1; published = 1; retries_scheduled = 0; settlements_lost = 0 }

abbrev published_world : World
published_world = (publish_once 1 no_loads clock accepting settings 7 [] idle_world).1

one_cycle :
    publish_once 1 no_loads clock accepting settings 7 [] idle_world
    ≡ (ok one_published, published_world)
unfolding publish_once now publish_events hand_off settle_event acknowledge lease check_lease
    mark_published lease_available validate_worker_id validate_utc is_blank strip is_space
    update_outbox candidates update_where returned_where leased_events leased_event uuid_text
one_cycle = refl

publish_once-trace_example :
    (trace : List (LeasedOutboxEvent × Fate)) × (leased : World) × (is_utc (clock 0) ≡ true)
    × (in_tenant
          (lease_available 1 no_loads 7 [] (codes "w") (clock 0) (pos 50) (pos 600))
          (record idle_world { ticks = 1 })
        ≡ (ok (map event_of trace), leased))
    × Unfolds 1 clock accepting (pos 300) trace leased published_world
    × (1 ≡ length trace)
    × (1 ≡ number acknowledged trace)
    × (0 ≡ number unacknowledged trace)
    × (0 ≡ number put_off trace)
publish_once-trace_example =
    publish_once-trace 1 no_loads clock accepting settings 7 [] idle_world published_world
      one_published one_cycle
