-- ===== src/Outbox/Traces.antt =====
-- The trace of `publish_once` of services/worker/netops_worker/outbox_publisher.py.
use netops_copilot.Prelude.{
  ℕ, suc, ◌+◌, ◌≡◌, refl, sym, ◌∙◌, ap, subst, inl, inr, true, Bool-cases, List, [], ◌∷◌, Option,
  arith, map,
}
use netops_copilot.Prelude.Lists.{length}
use netops_copilot.Prelude.Text.{Text}
use netops_copilot.Prelude.Time.{Datetime, is_utc}
use netops_copilot.Prelude.Json.{Json}
use netops_copilot.Errors.{ok}
use netops_copilot.Exec.{resume-eq-ok}
use netops_copilot.Storage.Tables.{Database}
use netops_copilot.Outbox.Commands.{LeasedOutboxEvent}
use netops_copilot.Outbox.Settings.{OutboxPublisherSettings}
use netops_copilot.Outbox.Delivery.{lease_available}
use netops_copilot.Outbox.Publisher.{
  Handoff, World, PublishCycleResult, in_tenant, now, hand_off, settle_event, publish_events,
  publish_once,
}
use netops_copilot.Outbox.Fates.{
  Fate, acknowledged, unacknowledged, put_off, given_up, number, Unfolds,
}
use netops_copilot.Outbox.Cycles.{counted, handed, settle_event-IsCounted}

-- The counts of a trace, on top of those before it.
abbrev Tallies : List (LeasedOutboxEvent × Fate) → PublishCycleResult → PublishCycleResult → Type 0
Tallies trace c r =
    (r.leased ≡ c.leased)
    × (r.published ≡ c.published + number acknowledged trace)
    × (r.settlements_lost ≡ c.settlements_lost + number unacknowledged trace)
    × (r.retries_scheduled ≡ c.retries_scheduled + number put_off trace)

-- Equal results have equal fields.
fields :
    (b c : PublishCycleResult)
    → b ≡ c
    → (b.leased ≡ c.leased)
      × (b.published ≡ c.published)
      × (b.settlements_lost ≡ c.settlements_lost)
      × (b.retries_scheduled ≡ c.retries_scheduled)
fields b c is = (
  ap (λ (x : PublishCycleResult). x.leased) is,
  ap (λ (x : PublishCycleResult). x.published) is,
  ap (λ (x : PublishCycleResult). x.settlements_lost) is,
  ap (λ (x : PublishCycleResult). x.retries_scheduled) is,
)

Tallies-nil : (c r : PublishCycleResult) → c ≡ r → Tallies [] c r
Tallies-nil c r is = omega (arith, fields c r is)

Tallies-counted :
    (e : LeasedOutboxEvent) (f : Fate) (trace : List (LeasedOutboxEvent × Fate))
    (c b r : PublishCycleResult)
    → b ≡ counted f c
    → Tallies trace b r
    → Tallies ((e, f) ∷ trace) c r
Tallies-counted e acknowledged trace c b r is t = omega (arith, fields b _ is, t)
Tallies-counted e unacknowledged trace c b r is t = omega (arith, fields b _ is, t)
Tallies-counted e put_off trace c b r is t = omega (arith, fields b _ is, t)
Tallies-counted e given_up trace c b r is t = omega (arith, fields b _ is, t)

abbrev pub event_of : LeasedOutboxEvent × Fate → LeasedOutboxEvent
event_of p = p.0

length-event_of :
    (trace : List (LeasedOutboxEvent × Fate)) → length (map event_of trace) ≡ length trace
length-event_of [] = refl
length-event_of (x ∷ trace) = ap suc (length-event_of trace)

module _ (organization_id : ℕ) (loads : Text → Option Json) (clock : ℕ → Datetime)
    (transport : LeasedOutboxEvent → Database → Handoff × Database)
    (settings : OutboxPublisherSettings) where
  publish_events-trace :
      (events : List LeasedOutboxEvent) (c r : PublishCycleResult) (w w' : World)
      → publish_events organization_id loads clock transport settings events c w ≡ (ok r, w')
      → (trace : List (LeasedOutboxEvent × Fate)) × (map event_of trace ≡ events)
        × Unfolds organization_id clock transport settings.retry_after trace w w'
        × Tallies trace c r
  unfolding publish_events hand_off
  publish_events-trace [] c r w w' h =
      let same : c ≡ r = cc h in ([], refl, cc h, Tallies-nil c r same)
  publish_events-trace (e ∷ events) c r w w' h =
      let (b, w1, h1, h2) =
        resume-eq-ok
          (settle_event organization_id loads clock transport settings e c
            (transport e w.database).0 (handed organization_id loads clock transport settings e w))
          _ h in
      let (f, met, is) =
        settle_event-IsCounted organization_id loads clock transport settings e c b w w1
          (transport e w.database).0 refl h1 in
      let (trace, of, run, tally) = publish_events-trace events b r w1 w' h2 in
      (
        (e, f) ∷ trace,
        ap (λ (es : List LeasedOutboxEvent). e ∷ es) of,
        (w1, met, run),
        Tallies-counted e f trace c b r is tally,
      )

  -- A cycle that returns has read the clock and leased events in a transaction of its own, at that
  -- reading, and then each leased event in turn met one of four fates. The transport took it and it
  -- was acknowledged at the next reading, or its lease was lost and nothing changed; or the
  -- transport failed and the retry was stored with the code of the failure and the time of the next
  -- reading plus retry_after, or its lease was lost and nothing changed. The counts are the number
  -- of leased events and those of the first three fates.
  pub publish_once-trace :
      (token : ℕ) (skipped : List ℕ) (w w' : World) (r : PublishCycleResult)
      → publish_once organization_id loads clock transport settings token skipped w ≡ (ok r, w')
      → (trace : List (LeasedOutboxEvent × Fate)) × (leased : World) × (is_utc (clock w.ticks)
          ≡ true)
        × (in_tenant
              (lease_available organization_id loads token skipped settings.worker_id
                (clock w.ticks)
                settings.batch_size
                settings.lease_for)
              (record w { ticks = suc w.ticks })
            ≡ (ok (map event_of trace), leased))
        × Unfolds organization_id clock transport settings.retry_after trace leased w'
        × (r.leased ≡ length trace)
        × (r.published ≡ number acknowledged trace)
        × (r.settlements_lost ≡ number unacknowledged trace)
        × (r.retries_scheduled ≡ number put_off trace)
  unfolding publish_once now
  publish_once-trace token skipped w w' r h = elim (Bool-cases (is_utc (clock w.ticks))) [
    | inr local ↦ absurd (let g = rw local at h in cc g)
    | inl utc ↦
        let g = rw utc at h in
        let (events, leased, q, h2) =
          resume-eq-ok
            (in_tenant
              (lease_available organization_id loads token skipped settings.worker_id
                (clock w.ticks) settings.batch_size settings.lease_for)
              (record w { ticks = suc w.ticks }))
            _ g in
        let (trace, of, run, tally) = publish_events-trace events _ r leased w' h2 in
        (
          trace,
          leased,
          utc,
          subst
              (λ (es : List LeasedOutboxEvent).
                in_tenant
                  (lease_available organization_id loads token skipped settings.worker_id
                    (clock w.ticks) settings.batch_size settings.lease_for)
                  (record w { ticks = suc w.ticks })
                ≡ (ok es, leased))
              (sym of) q,
          run,
          tally.0 ∙ ap length (sym of) ∙ length-event_of trace,
          omega (arith, tally),
          omega (arith, tally),
          omega (arith, tally),
        )
  ]
