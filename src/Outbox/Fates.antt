-- ===== src/Outbox/Fates.antt =====
-- What becomes of each leased event in `publish_once` of
-- services/worker/netops_worker/outbox_publisher.py, without its code: the trace that the counts
-- and the tables have to agree with.
use netops_copilot.Prelude.{ℕ, suc, ◌+◌, ◌≡◌, ◌⊎◌, List, [], ◌∷◌}
use netops_copilot.Prelude.Text.{Text, codes}
use netops_copilot.Prelude.Time.{Datetime}
use netops_copilot.Prelude.Int.{ℤ, natural}
use netops_copilot.Errors.{outbox_lease_lost, ok, err}
use netops_copilot.Exec.{Exec}
use netops_copilot.Storage.Tables.{Database}
use netops_copilot.Outbox.Commands.{OutboxLease, LeasedOutboxEvent, lease}
use netops_copilot.Outbox.Delivery.{mark_published, schedule_retry}
use netops_copilot.Outbox.Publisher.{Handoff, handed_off, retryable, failed, World}

-- The transport took the event, and it was acknowledged or its lease was lost by then; or the
-- transport failed, and the event was put off or its lease was lost by then.
pub data Fate : Type 0 where
  acknowledged : Fate
  unacknowledged : Fate
  put_off : Fate
  given_up : Fate

-- How many events met a fate.
abbrev one_if : Fate → Fate → ℕ
one_if acknowledged acknowledged = 1
one_if unacknowledged unacknowledged = 1
one_if put_off put_off = 1
one_if given_up given_up = 1
one_if _ _ = 0

abbrev pub number : Fate → List (LeasedOutboxEvent × Fate) → ℕ
number f [] = 0
number f ((_, g) ∷ trace) = one_if f g + number f trace

-- A settlement that was committed, and one that found the lease lost and changed nothing.
abbrev pub Commits : Exec Database (Unit {0}) → Database → Database → Type 0
Commits m before after = m before ≡ (ok tt, after)

abbrev pub IsLost : Exec Database (Unit {0}) → Database → Database → Type 0
IsLost m before after =
    ((i : ℕ) × (d : Database) × (m before ≡ (err (outbox_lease_lost i), d))) × (after ≡ before)

-- The code that a failed handoff is stored with.
abbrev pub HasCode : Handoff → Text → Type 0
HasCode h code = (h ≡ retryable code) ⊎ ((h ≡ failed) × (code ≡ codes "transport.failed"))

-- The time of a retry that is scheduled at the given reading of the clock.
abbrev pub retry_at : (ℕ → Datetime) → ℤ → ℕ → Datetime
retry_at clock retry_after ticks = record (clock ticks) {
  instant = (clock ticks).instant + natural retry_after;
}

module _ (organization_id : ℕ) (clock : ℕ → Datetime)
    (transport : LeasedOutboxEvent → Database → Handoff × Database) (retry_after : ℤ) where
  abbrev pub Meets : Fate → LeasedOutboxEvent → World → World → Type 0
  Meets acknowledged e w w' =
      ((transport e w.database).0 ≡ handed_off)
      × (w'.ticks ≡ suc w.ticks)
      × (l : OutboxLease) × (lease e ≡ ok l)
      × Commits (mark_published organization_id l (clock w.ticks)) (transport e w.database).1
          w'.database
  Meets unacknowledged e w w' =
      ((transport e w.database).0 ≡ handed_off)
      × (w'.ticks ≡ suc w.ticks)
      × (l : OutboxLease) × (lease e ≡ ok l)
      × IsLost (mark_published organization_id l (clock w.ticks)) (transport e w.database).1
          w'.database
  Meets put_off e w w' =
      (code : Text) × HasCode (transport e w.database).0 code
      × (w'.ticks ≡ suc w.ticks)
      × (l : OutboxLease) × (lease e ≡ ok l)
      × Commits (schedule_retry organization_id l (retry_at clock retry_after w.ticks) code)
          (transport e w.database).1 w'.database
  Meets given_up e w w' =
      (code : Text) × HasCode (transport e w.database).0 code
      × (w'.ticks ≡ suc w.ticks)
      × (l : OutboxLease) × (lease e ≡ ok l)
      × IsLost (schedule_retry organization_id l (retry_at clock retry_after w.ticks) code)
          (transport e w.database).1 w'.database

  -- The events meet their fates one after the other.
  abbrev pub Unfolds : List (LeasedOutboxEvent × Fate) → World → World → Type 0
  Unfolds [] w w' = w' ≡ w
  Unfolds ((e, f) ∷ trace) w w' = (m : World) × Meets f e w m × Unfolds trace m w'
