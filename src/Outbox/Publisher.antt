-- ===== src/Outbox/Publisher.antt =====
-- `OutboxPublisher` of services/worker/netops_worker/outbox_publisher.py.
use netops_copilot.Prelude.{ℕ, suc, ◌+◌, Bool, true, false, List, [], ◌∷◌, Option, if◌then◌else◌}
use netops_copilot.Prelude.Lists.{length}
use netops_copilot.Prelude.Text.{Text, codes}
use netops_copilot.Prelude.Time.{Datetime, is_utc}
use netops_copilot.Prelude.Json.{Json}
use netops_copilot.Prelude.Int.{ℤ, natural}
use netops_copilot.Errors.{value_error, outbox_lease_lost, Result, ok, err}
use netops_copilot.Exec.{Exec, pure, lift, atomic, ◌>>=◌}
use netops_copilot.Storage.Tables.{Database}
use netops_copilot.Outbox.Commands.{OutboxLease, LeasedOutboxEvent, lease}
use netops_copilot.Outbox.Settings.{OutboxPublisherSettings}
use netops_copilot.Outbox.Delivery.{lease_available, mark_published, schedule_retry}

pub record PublishCycleResult : Type 0 where
  pub leased : ℕ
  pub published : ℕ
  pub retries_scheduled : ℕ
  pub settlements_lost : ℕ

-- How `transport.publish` ends: it returns, it raises `RetryablePublishError` with a code, or it
-- raises any other exception.
pub data Handoff : Type 0 where
  handed_off : Handoff
  retryable : Text → Handoff
  failed : Handoff

-- The database, and how often the clock was read.
pub record World : Type 0 where
  pub database : Database
  pub ticks : ℕ

-- `with self._database.tenant_connection(...)`: one transaction.
abbrev pub in_tenant : {A : Type 0} → Exec Database A → Exec World A
in_tenant m w = let r = atomic m w.database in (r.0, record w { database = r.1 })

-- `except OutboxLeaseLostError: return False`, and else `return True`
abbrev pub unless_lost : Result (Unit {0}) × World → Result Bool × World
unless_lost (ok _, w) = (ok true, w)
unless_lost (err (outbox_lease_lost _), w) = (ok false, w)
unless_lost (err e, w) = (err e, w)

-- The clock and the transport are parameters: the clock by the number of the reading, and the
-- transport with what it does to the database.
module _ (organization_id : ℕ) (loads : Text → Option Json) (clock : ℕ → Datetime)
    (transport : LeasedOutboxEvent → Database → Handoff × Database)
    (settings : OutboxPublisherSettings) where
  -- `_now`
  unfoldable pub now : Exec World Datetime
  now w =
      let value = clock w.ticks in
      let next = record w { ticks = suc w.ticks } in
      if is_utc value
      then (ok value, next)
      else (err (value_error "clock must return a timezone-aware UTC datetime."), next)

  -- `self._mark_published`
  unfoldable pub acknowledge : OutboxLease → Exec World Bool
  acknowledge l w = unless_lost ((now >>= λ at. in_tenant (mark_published organization_id l at)) w)

  abbrev pub later : Datetime → ℤ → Datetime
  later t d = record t { instant = t.instant + natural d }

  -- `self._schedule_retry`
  unfoldable pub reschedule : OutboxLease → Text → Exec World Bool
  reschedule l error_code w = unless_lost (
      (now >>= λ at.
      in_tenant (schedule_retry organization_id l (later at settings.retry_after) error_code))
        w)

  unfoldable pub hand_off : LeasedOutboxEvent → Exec World Handoff
  hand_off e w = let r = transport e w.database in (ok (r.0), record w { database = r.1 })

  -- The `except` and `else` branches of the loop's body.
  unfoldable pub settle_event :
      LeasedOutboxEvent → PublishCycleResult → Handoff → Exec World PublishCycleResult
  settle_event e c handed_off = do
    l ← lift (lease e)
    held ← acknowledge l
    pure (
        if held
        then record c { published = suc c.published }
        else record c { settlements_lost = suc c.settlements_lost })
  settle_event e c (retryable error_code) = do
    l ← lift (lease e)
    held ← reschedule l error_code
    pure (if held then record c { retries_scheduled = suc c.retries_scheduled } else c)
  settle_event e c failed = do
    l ← lift (lease e)
    held ← reschedule l (codes "transport.failed")
    pure (if held then record c { retries_scheduled = suc c.retries_scheduled } else c)

  -- `for event in events`
  unfoldable pub publish_events :
      List LeasedOutboxEvent → PublishCycleResult → Exec World PublishCycleResult
  publish_events [] c = pure c
  publish_events (e ∷ events) c = do
    handoff ← hand_off e
    counted ← settle_event e c handoff
    publish_events events counted

  -- `publish_once`. `token` is the `uuid4()` of the lease token, `skipped` the rows locked by others.
  unfoldable pub publish_once : (token : ℕ) (skipped : List ℕ) → Exec World PublishCycleResult
  publish_once token skipped = do
    leased_at ← now
    events ← in_tenant (
        lease_available organization_id loads token skipped settings.worker_id leased_at
          settings.batch_size settings.lease_for)
    publish_events events (record {
      leased = length events;
      published = 0;
      retries_scheduled = 0;
      settlements_lost = 0;
    })
