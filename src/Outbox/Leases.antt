-- ===== src/Outbox/Leases.antt =====
-- Leases of two workers on one outbox, taken one after the other.
use netops_copilot.Prelude.{
  ℕ, ◌+◌, ◌<◌, ltb, ◌==◌, nat_eq, list_eq, ◌≡◌, refl, Bool, true, false, Bool-cases, contains,
  Option, List, [], map, ◌++◌, arith, inl, inr,
}
use netops_copilot.Prelude.Lists.{keep}
use netops_copilot.Prelude.Text.{Text, codes}
use netops_copilot.Prelude.Time.{Datetime, is_utc}
use netops_copilot.Prelude.Json.{Json}
use netops_copilot.Prelude.Uuid.{uuid_text}
use netops_copilot.Prelude.Int.{ℤ, natural}
use netops_copilot.Errors.{ok, err, outbox_lease_lost}
use netops_copilot.Storage.Tables.{Database}
use netops_copilot.Outbox.Commands.{OutboxLease, LeasedOutboxEvent, validate_utc, is_delivery_code}
use netops_copilot.Outbox.Statements.{
  LeaseRequest, candidates, row_id, is_chosen, is_held, set_lease, set_published, set_retry,
  returned_where,
}
use netops_copilot.Outbox.Delivery.{
  update_outbox, lease_request, lease_available, mark_published, schedule_retry,
}
use netops_copilot.Outbox.Outcomes.{lease_available-cases, updated}
use netops_copilot.Outbox.Chosen.{contains-keep, candidates-ready}
use netops_copilot.Outbox.Exclusion.{
  event_outbox_id, leased_events-ids, set_lease-ids, any-chosen, leased-not_ready, leased-not_held,
  update_where-none,
}

-- The identities of the leased events.
abbrev pub leases : List LeasedOutboxEvent → ℕ → Bool
leases events i = contains (map event_outbox_id events) i

module _ (organization_id : ℕ) (loads : Text → Option Json) (token : ℕ) (skipped : List ℕ)
    (worker_id : Text) (now : Datetime) (limit lease_for : ℤ) (db after : Database)
    (events : List LeasedOutboxEvent)
    (leased : lease_available organization_id loads token skipped worker_id now limit lease_for db
      ≡ (ok events, after)) where
  abbrev request : LeaseRequest
  request = lease_request organization_id token skipped worker_id now limit lease_for

  -- The table after the lease, and whose identities were leased.
  leased-table :
      (after ≡ updated (is_chosen request db.outbox_events) (set_lease request) db)
      × (ltb now.instant (natural lease_for) ≡ false)
      × ((i : ℕ)
          → leases events i ≡ true
          → contains (map row_id (candidates request db.outbox_events)) i ≡ true)
  unfolding returned_where
  leased-table =
      elim (lease_available-cases organization_id db loads token skipped worker_id now limit
        lease_for) [
          | inl (e, p) ↦ cc (p, leased)
          | inr (found, in_range, p, q) ↦
              let same : found ≡ events = cc (q, leased) in
              (
                cc (q, leased),
                in_range,
                λ i h.
                    let ids = leased_events-ids loads _ found p in
                    let h2 : contains (map event_outbox_id found) i ≡ true = rw same h in
                    any-chosen request db.outbox_events i db.outbox_events (
                      rw
                        (
                          ids,
                          set_lease-ids request
                              (keep (is_chosen request db.outbox_events) db.outbox_events),
                          contains-keep (is_chosen request db.outbox_events) db.outbox_events i,
                        )
                        at h2),
              )
        ]

module _ (organization_id : ℕ) (loads : Text → Option Json) (token : ℕ) (skipped : List ℕ)
    (worker_id : Text) (now : Datetime) (limit lease_for : ℤ) (db after : Database)
    (events : List LeasedOutboxEvent)
    (leased : lease_available organization_id loads token skipped worker_id now limit lease_for db
      ≡ (ok events, after)) where
  -- After a lease of `events`, a second lease of the same outbox that is taken before the first one
  -- runs out by its own reckoning (its `now` less its `lease_for` is before the first `now`)
  -- leases none of these events again, whatever its worker, limit and skipped rows.
  pub lease_available-exclusive :
      (token2 : ℕ) (skipped2 : List ℕ) (worker2 : Text) (now2 : Datetime) (limit2 lease_for2 : ℤ)
      → (after2 : Database) (events2 : List LeasedOutboxEvent)
      → lease_available organization_id loads token2 skipped2 worker2 now2 limit2 lease_for2 after
        ≡ (ok events2, after2)
      → now2.instant < now.instant + natural lease_for2
      → (outbox_id : ℕ) → leases events outbox_id ≡ true
      → leases events2 outbox_id ≡ false
  lease_available-exclusive token2 skipped2 worker2 now2 limit2 lease_for2 after2 events2 leased2
        early i h =
      let next = lease_request organization_id token2 skipped2 worker2 now2 limit2 lease_for2 in
      let (table, _, taken) =
        leased-table organization_id loads token skipped worker_id now limit lease_for db after
          events leased in
      let (_, in_range, taken2) =
        leased-table organization_id loads token2 skipped2 worker2 now2 limit2 lease_for2 after
          after2 events2 leased2 in
      elim (Bool-cases (leases events2 i)) [
        | inr fresh ↦ fresh
        | inl again ↦
            let ready = candidates-ready next after.outbox_events i (taken2 i again) in
            let idle =
              leased-not_ready
                (lease_request organization_id token skipped worker_id now limit lease_for)
                db.outbox_events i (taken i h) next refl (ground (arith, early, in_range))
                db.outbox_events in
            cc (ready, idle, table)
      ]

  -- After a lease of `events`, a settlement of one of them with another token is refused: both an
  -- acknowledgement and a retry, with valid arguments, raise that the lease is lost and change
  -- nothing.
  pub settlement-fenced :
      (l : OutboxLease) (at : Datetime) (error_code : Text)
      → leases events l.outbox_id ≡ true
      → ((worker_id ++ codes ":" ++ uuid_text token) == l.lease_token) ≡ false
      → is_utc at ≡ true
      → is_delivery_code error_code ≡ true
      → (mark_published organization_id l at after ≡ (err (outbox_lease_lost l.outbox_id), after))
        × (schedule_retry organization_id l at error_code after
            ≡ (err (outbox_lease_lost l.outbox_id), after))
  unfolding mark_published schedule_retry update_outbox returned_where validate_utc
  settlement-fenced l at error_code h foreign utc safe =
      let test = is_held organization_id l.outbox_id l.lease_token in
      let (table, _, taken) =
        leased-table organization_id loads token skipped worker_id now limit lease_for db after
          events leased in
      let lost =
        leased-not_held (lease_request organization_id token skipped worker_id now limit lease_for)
          db.outbox_events l.outbox_id (taken l.outbox_id h) l.lease_token foreign
          db.outbox_events in
      let held : keep test after.outbox_events ≡ [] = rw table lost in
      (
        rw (utc, held, update_where-none test (set_published at.instant) after.outbox_events held)
            refl,
        rw
            (
              utc,
              safe,
              held,
              update_where-none test (set_retry at.instant error_code) after.outbox_events held,
            )
            refl,
      )
