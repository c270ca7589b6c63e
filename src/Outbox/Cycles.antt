-- ===== src/Outbox/Cycles.antt =====
-- What the loop of `publish_once` does with one event, of services/worker/netops_worker/outbox_publisher.py.
use netops_copilot.Prelude.{
  ℕ, suc, ◌≡◌, refl, sym, ◌∙◌, subst, ◌⊎◌, inl, inr, Bool, true, false, Option, if◌then◌else◌,
  Bool-cases,
}
use netops_copilot.Prelude.Text.{Text, codes}
use netops_copilot.Prelude.Time.{Datetime, is_utc}
use netops_copilot.Prelude.Json.{Json}
use netops_copilot.Errors.{Exception, outbox_lease_lost, Result, ok, err, Result-cases}
use netops_copilot.Exec.{Exec, resume, resume-eq-ok, settle, pure, lift}
use netops_copilot.Storage.Tables.{Database}
use netops_copilot.Outbox.Commands.{OutboxLease, LeasedOutboxEvent, lease}
use netops_copilot.Outbox.Settings.{OutboxPublisherSettings}
use netops_copilot.Outbox.Delivery.{mark_published, schedule_retry}
use netops_copilot.Outbox.Publisher.{
  Handoff, handed_off, retryable, failed, World, PublishCycleResult, in_tenant, now, acknowledge,
  reschedule, settle_event, unless_lost,
}
use netops_copilot.Outbox.Fates.{
  Fate, acknowledged, unacknowledged, put_off, given_up, Commits, IsLost, HasCode, Meets, retry_at,
}

-- Every exception but the lost lease is passed on.
lost-cases :
    (e : Exception)
    → ((i : ℕ) × (e ≡ outbox_lease_lost i)) ⊎ ((w : World) → unless_lost (err e, w) ≡ (err e, w))
lost-cases (outbox_lease_lost i) = inl (i, refl)
lost-cases _ = inr (λ w. refl)

not_held :
    {e : Exception} {w w' : World} {held : Bool} {A : Type 0}
    → ◌≡◌ {A = Result Bool × World} (err e, w) (ok held, w')
    → A
not_held h = absurd (cc h)

-- What a settlement in a transaction of its own did, if it returned.
abbrev Settles : Exec Database (Unit {0}) → World → World → Bool → Type 0
Settles m w w' held =
    (w'.ticks ≡ w.ticks)
    × (((held ≡ true) × Commits m w.database w'.database)
        ⊎ ((held ≡ false) × IsLost m w.database w'.database))

settled_result :
    (r : Result (Unit {0}) × Database) (w w' : World) (held : Bool)
    → unless_lost ((settle r w.database).0, record w { database = (settle r w.database).1 })
      ≡ (ok held, w')
    → Settles (λ _. r) w w' held
settled_result (ok tt, s) w w' held h = (cc h, inl (cc h, cc h))
settled_result (err e, s) w w' held h = elim (lost-cases e) [
  | inr passed ↦ not_held (sym (passed w) ∙ h)
  | inl (i, p) ↦ let g = rw p at h in (cc g, inr (cc g, ((i, s, rw p refl), cc g)))
]

settled :
    (m : Exec Database (Unit {0})) (w w' : World) (held : Bool)
    → unless_lost (in_tenant m w) ≡ (ok held, w')
    → Settles m w w' held
settled m w w' held h = settled_result (m w.database) w w' held h

-- How a fate is counted.
abbrev pub counted : Fate → PublishCycleResult → PublishCycleResult
counted acknowledged c = record c { published = suc c.published }
counted unacknowledged c = record c { settlements_lost = suc c.settlements_lost }
counted put_off c = record c { retries_scheduled = suc c.retries_scheduled }
counted given_up c = c

module _ (organization_id : ℕ) (loads : Text → Option Json) (clock : ℕ → Datetime)
    (transport : LeasedOutboxEvent → Database → Handoff × Database)
    (settings : OutboxPublisherSettings) where
  abbrev tick : World → World
  tick w = record w { ticks = suc w.ticks }

  acknowledged-or-lost :
      (l : OutboxLease) (w w' : World) (held : Bool)
      → acknowledge organization_id loads clock transport settings l w ≡ (ok held, w')
      → Settles (mark_published organization_id l (clock w.ticks)) (tick w) w' held
  unfolding acknowledge now
  acknowledged-or-lost l w w' held h = elim (Bool-cases (is_utc (clock w.ticks))) [
    | inr local ↦ let g = rw local at h in not_held g
    | inl utc ↦
        let g = rw utc at h in
        settled (mark_published organization_id l (clock w.ticks)) (tick w) w' held g
  ]

  rescheduled-or-lost :
      (l : OutboxLease) (code : Text) (w w' : World) (held : Bool)
      → reschedule organization_id loads clock transport settings l code w ≡ (ok held, w')
      → Settles
          (schedule_retry organization_id l (retry_at clock settings.retry_after w.ticks) code)
          (tick w)
          w'
          held
  unfolding reschedule now
  rescheduled-or-lost l code w w' held h = elim (Bool-cases (is_utc (clock w.ticks))) [
    | inr local ↦ let g = rw local at h in not_held g
    | inl utc ↦
        let g = rw utc at h in
        settled
          (schedule_retry organization_id l (retry_at clock settings.retry_after w.ticks) code)
          (tick w) w' held g
  ]

  abbrev pub Met : Fate → LeasedOutboxEvent → World → World → Type 0
  Met = Meets organization_id clock transport settings.retry_after

  -- The world after the handoff of an event.
  abbrev pub handed : LeasedOutboxEvent → World → World
  handed e w = record w { database = (transport e w.database).1 }

  -- The event meets a fate, and is counted for it.
  abbrev pub IsCounted :
      LeasedOutboxEvent → PublishCycleResult → World → PublishCycleResult × World → Type 0
  IsCounted e c w (r, w') = (f : Fate) × Met f e w w' × (r ≡ counted f c)

  -- What the tail of a branch makes of the settlement.
  concluded :
      (e : LeasedOutboxEvent) (c r : PublishCycleResult) (w w2 w' : World) (held : Bool)
      (kept lost : Fate)
      → ◌≡◌ {A = Result PublishCycleResult × World}
          (ok (if held then counted kept c else counted lost c), w2)
          (ok r, w')
      → ((held ≡ true) × Met kept e w w2) ⊎ ((held ≡ false) × Met lost e w w2)
      → IsCounted e c w (r, w')
  concluded e c r w w2 w' held kept lost h (inl (yes_held, m)) =
      let last : w2 ≡ w' = cc h in
      let g = rw yes_held at h in (kept, subst (Met kept e w) last m, cc g)
  concluded e c r w w2 w' held kept lost h (inr (not_kept, m)) =
      let last : w2 ≡ w' = cc h in
      let g = rw not_kept at h in (lost, subst (Met lost e w) last m, cc g)

  settle_handed_off :
      (e : LeasedOutboxEvent) (c r : PublishCycleResult) (w w' : World)
      → (transport e w.database).0 ≡ handed_off
      → settle_event organization_id loads clock transport settings e c handed_off (handed e w)
        ≡ (ok r, w')
      → IsCounted e c w (r, w')
  unfolding settle_event
  settle_handed_off e c r w w' is h = elim (Result-cases (lease e)) [
    | inr (x, q) ↦ absurd (let g = rw q at h in cc g)
    | inl (l, q) ↦
        let g = rw q at h in
        let (held, w2, q2, h2) =
          resume-eq-ok (acknowledge organization_id loads clock transport settings l (handed e w)) _
            g in
        let (time, met) = acknowledged-or-lost l (handed e w) w2 held q2 in
        concluded e c r w w2 w' held acknowledged unacknowledged h2 (elim met [
          | inl (k, m) ↦ inl (k, (is, time, l, q, m))
          | inr (k, m) ↦ inr (k, (is, time, l, q, m))
        ])
  ]

  put_off-or-given_up :
      (e : LeasedOutboxEvent) (c r : PublishCycleResult) (w w' : World) (code : Text)
      → HasCode (transport e w.database).0 code
      → resume (lift (lease e) (handed e w)) (λ l s.
        resume (reschedule organization_id loads clock transport settings l code s) (λ held.
          pure (if held then record c { retries_scheduled = suc c.retries_scheduled } else c)))
        ≡ (ok r, w')
      → IsCounted e c w (r, w')
  put_off-or-given_up e c r w w' code is h = elim (Result-cases (lease e)) [
    | inr (x, q) ↦ absurd (let g = rw q at h in cc g)
    | inl (l, q) ↦
        let g = rw q at h in
        let (held, w2, q2, h2) =
          resume-eq-ok
            (reschedule organization_id loads clock transport settings l code (handed e w)) _ g in
        let (time, met) = rescheduled-or-lost l code (handed e w) w2 held q2 in
        concluded e c r w w2 w' held put_off given_up h2 (elim met [
          | inl (k, m) ↦ inl (k, (code, is, time, l, q, m))
          | inr (k, m) ↦ inr (k, (code, is, time, l, q, m))
        ])
  ]

  pub settle_event-IsCounted :
      (e : LeasedOutboxEvent) (c r : PublishCycleResult) (w w' : World) (h : Handoff)
      → (transport e w.database).0 ≡ h
      → settle_event organization_id loads clock transport settings e c h (handed e w) ≡ (ok r, w')
      → IsCounted e c w (r, w')
  unfolding settle_event
  settle_event-IsCounted e c r w w' handed_off is h = settle_handed_off e c r w w' is h
  settle_event-IsCounted e c r w w' (retryable code) is h =
      put_off-or-given_up e c r w w' code (inl is) h
  settle_event-IsCounted e c r w w' failed is h =
      put_off-or-given_up e c r w w' (codes "transport.failed") (inr (is, refl)) h
