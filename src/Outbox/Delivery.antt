-- ===== src/Outbox/Delivery.antt =====
-- `TenantOutboxRepository` of services/api/netops_api/application/outbox.py.
use netops_copilot.Prelude.{ℕ, ◌-◌, ◌++◌, ◌==◌, nat_eq, ltb, Bool, not, ◌||◌, Option, List}
use netops_copilot.Prelude.Lists.{length}
use netops_copilot.Prelude.Text.{Text, codes}
use netops_copilot.Prelude.Time.{Datetime}
use netops_copilot.Prelude.Json.{Json}
use netops_copilot.Prelude.Uuid.{uuid_text}
use netops_copilot.Prelude.Int.{ℤ, is_positive, natural}
use netops_copilot.Errors.{value_error, overflow_error, outbox_lease_lost, ok}
use netops_copilot.Exec.{Exec, lift, raise_if, gets, ◌>>=◌, ◌>>◌}
use netops_copilot.Storage.Tables.{OutboxRow, Database}
use netops_copilot.Outbox.Commands.{
  OutboxLease, LeasedOutboxEvent, leased_events, validate_worker_id, validate_utc, is_delivery_code,
}
use netops_copilot.Outbox.Statements.{
  LeaseRequest, is_chosen, set_lease, update_where, returned_where, is_held, set_published,
  set_retry,
}

-- Runs an UPDATE of `outbox_events`: the rows that it returns.
unfoldable pub update_outbox :
    (OutboxRow → Bool) → (OutboxRow → OutboxRow) → Exec Database (List OutboxRow)
update_outbox test set db = (
  ok (returned_where test set db.outbox_events),
  record db { outbox_events = update_where test set db.outbox_events },
)

module _ (organization_id : ℕ) where
  -- The parameters of `_LEASE_AVAILABLE`.
  abbrev pub lease_request : ℕ → List ℕ → Text → Datetime → (limit lease_for : ℤ) → LeaseRequest
  lease_request token skipped worker_id now limit lease_for = record {
    organization_id = organization_id;
    lease_token = worker_id ++ codes ":" ++ uuid_text token;
    now = now.instant;
    lease_expired_at = now.instant - natural lease_for;
    limit = natural limit;
    skipped = skipped;
  }

  -- `lease_available`. `token` is the `uuid4()` of the lease token, `skipped` the rows locked by
  -- others. PostgreSQL leaves the order of the returned rows open: here it is the table's.
  unfoldable pub lease_available :
      (Text → Option Json)
      → (token : ℕ) (skipped : List ℕ) → (worker_id : Text) (now : Datetime) (limit lease_for : ℤ)
      → Exec Database (List LeasedOutboxEvent)
  lease_available loads token skipped worker_id now limit lease_for = do
    lift (validate_worker_id worker_id)
    lift (validate_utc now "now must be timezone-aware UTC.")
    raise_if (not (is_positive limit) || ltb 100 (natural limit))
        (value_error "limit must be between 1 and 100.")
    raise_if (not (is_positive lease_for)) (value_error "lease_for must be positive.")
    raise_if (ltb now.instant (natural lease_for)) overflow_error
    let request = lease_request token skipped worker_id now limit lease_for
    table ← gets (λ (db : Database). db.outbox_events)
    rows ← update_outbox (is_chosen request table) (set_lease request)
    lift (leased_events loads rows)

  -- `mark_published`
  unfoldable pub mark_published : OutboxLease → Datetime → Exec Database (Unit {0})
  mark_published l published_at = do
    lift (validate_utc published_at "published_at must be timezone-aware UTC.")
    rows ←
        update_outbox (is_held organization_id l.outbox_id l.lease_token)
          (set_published published_at.instant)
    raise_if (not (length rows == 1)) (outbox_lease_lost l.outbox_id)

  -- `schedule_retry`
  unfoldable pub schedule_retry : OutboxLease → Datetime → Text → Exec Database (Unit {0})
  schedule_retry l retry_at error_code = do
    lift (validate_utc retry_at "retry_at must be timezone-aware UTC.")
    raise_if (not (is_delivery_code error_code))
        (value_error "error_code must be a 1 to 128 character safe delivery code.")
    rows ←
        update_outbox (is_held organization_id l.outbox_id l.lease_token)
          (set_retry retry_at.instant error_code)
    raise_if (not (length rows == 1)) (outbox_lease_lost l.outbox_id)
