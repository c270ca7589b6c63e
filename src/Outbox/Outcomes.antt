-- ===== src/Outbox/Outcomes.antt =====
-- The outcomes of the operations of `TenantOutboxRepository` of
-- services/api/netops_api/application/outbox.py.
use netops_copilot.Prelude.{
  ℕ, ◌==◌, nat_eq, ◌≡◌, refl, ◌⊎◌, inl, inr, Bool, true, false, not, ltb, ◌||◌, Bool-cases, List,
  Option,
}
use netops_copilot.Prelude.Lists.{length}
use netops_copilot.Prelude.Text.{Text}
use netops_copilot.Prelude.Time.{Datetime}
use netops_copilot.Prelude.Json.{Json}
use netops_copilot.Prelude.Int.{ℤ, is_positive, natural}
use netops_copilot.Errors.{
  Exception, value_error, overflow_error, outbox_lease_lost, Result, ok, err, Result-cases,
}
use netops_copilot.Storage.Tables.{OutboxRow, Database}
use netops_copilot.Outbox.Commands.{
  OutboxLease, LeasedOutboxEvent, leased_events, validate_worker_id, validate_utc, is_delivery_code,
}
use netops_copilot.Outbox.Statements.{
  update_where, returned_where, is_chosen, is_held, set_lease, set_published, set_retry,
}
use netops_copilot.Outbox.Delivery.{
  update_outbox, lease_request, lease_available, mark_published, schedule_retry,
}

-- The database after an UPDATE of the outbox.
abbrev pub updated : (OutboxRow → Bool) → (OutboxRow → OutboxRow) → Database → Database
updated test set db = record db { outbox_events = update_where test set db.outbox_events }

abbrev pub Raises : {A : Type 0} → Result A × Database → Type 0
Raises r = (e : Exception) × (r.0 ≡ err e)

module _ (organization_id : ℕ) (db : Database) where
  pub lease_available-cases :
      (loads : Text → Option Json) (token : ℕ) (skipped : List ℕ)
      → (worker_id : Text) (now : Datetime) (limit lease_for : ℤ)
      → let q = lease_request organization_id token skipped worker_id now limit lease_for in
        Raises
          (lease_available organization_id loads token skipped worker_id now limit lease_for db)
        ⊎ ((events : List LeasedOutboxEvent) × (ltb now.instant (natural lease_for) ≡ false)
            × (leased_events loads
                  (returned_where (is_chosen q db.outbox_events) (set_lease q) db.outbox_events)
                ≡ ok events)
            × (lease_available organization_id loads token skipped worker_id now limit lease_for db
                ≡ (ok events, updated (is_chosen q db.outbox_events) (set_lease q) db)))
  unfolding lease_available update_outbox
  lease_available-cases loads token skipped worker_id now limit lease_for =
      let q = lease_request organization_id token skipped worker_id now limit lease_for in
      elim (Result-cases (validate_worker_id worker_id)) [
        | inr (e, p) ↦ inl (e, rw p refl)
        | inl (_, p) ↦ elim (Result-cases (validate_utc now "now must be timezone-aware UTC.")) [
          | inr (e, p2) ↦ inl (e, rw (p, p2) refl)
          | inl (_, p2) ↦ elim (Bool-cases (not (is_positive limit) || ltb 100 (natural limit))) [
            | inl p3 ↦ inl (value_error "limit must be between 1 and 100.", rw (p, p2, p3) refl)
            | inr p3 ↦ elim (Bool-cases (not (is_positive lease_for))) [
              | inl p4 ↦ inl (value_error "lease_for must be positive.", rw (p, p2, p3, p4) refl)
              | inr p4 ↦ elim (Bool-cases (ltb now.instant (natural lease_for))) [
                | inl p5 ↦ inl (overflow_error, rw (p, p2, p3, p4, p5) refl)
                | inr p5 ↦
                    elim (Result-cases (
                      leased_events loads (
                        returned_where (is_chosen q db.outbox_events) (set_lease q)
                          db.outbox_events))) [
                            | inr (e, p6) ↦ inl (e, rw (p, p2, p3, p4, p5, p6) refl)
                            | inl (events, p6) ↦
                                inr (events, p5, p6, rw (p, p2, p3, p4, p5, p6) refl)
                          ]
              ]
            ]
          ]
        ]
      ]

  pub mark_published-cases :
      (l : OutboxLease) (at : Datetime)
      → let test = is_held organization_id l.outbox_id l.lease_token in
        Raises (mark_published organization_id l at db)
        ⊎ (((length (returned_where test (set_published at.instant) db.outbox_events) == 1) ≡ true)
            × (mark_published organization_id l at db
                ≡ (ok tt, updated test (set_published at.instant) db)))
  unfolding mark_published update_outbox
  mark_published-cases l at =
      let test = is_held organization_id l.outbox_id l.lease_token in
      elim (Result-cases (validate_utc at "published_at must be timezone-aware UTC.")) [
        | inr (e, p) ↦ inl (e, rw p refl)
        | inl (_, p) ↦
            elim (Bool-cases
              (length (returned_where test (set_published at.instant) db.outbox_events) == 1)) [
                | inl p2 ↦ inr (p2, rw (p, p2) refl)
                | inr p2 ↦ inl (outbox_lease_lost l.outbox_id, rw (p, p2) refl)
              ]
      ]

  pub schedule_retry-cases :
      (l : OutboxLease) (at : Datetime) (code : Text)
      → let test = is_held organization_id l.outbox_id l.lease_token in
        Raises (schedule_retry organization_id l at code db)
        ⊎ (((length (returned_where test (set_retry at.instant code) db.outbox_events) == 1) ≡ true)
            × (schedule_retry organization_id l at code db
                ≡ (ok tt, updated test (set_retry at.instant code) db)))
  unfolding schedule_retry update_outbox
  schedule_retry-cases l at code =
      let test = is_held organization_id l.outbox_id l.lease_token in
      elim (Result-cases (validate_utc at "retry_at must be timezone-aware UTC.")) [
        | inr (e, p) ↦ inl (e, rw p refl)
        | inl (_, p) ↦ elim (Bool-cases (not (is_delivery_code code))) [
          | inl p1 ↦ inl (
            value_error "error_code must be a 1 to 128 character safe delivery code.",
            rw (p, p1) refl,
          )
          | inr p1 ↦
              elim (Bool-cases
                (length (returned_where test (set_retry at.instant code) db.outbox_events) == 1)) [
                  | inl p2 ↦ inr (p2, rw (p, p1, p2) refl)
                  | inr p2 ↦ inl (outbox_lease_lost l.outbox_id, rw (p, p1, p2) refl)
                ]
        ]
      ]
