-- ===== src/Outbox/Steps.antt =====
-- Sequences of the operations of `TenantOutboxRepository`, each in a tenant transaction of its own.
use netops_copilot.Prelude.{
  arith, nat_eq, option_eq, ◌≡◌, ◌⊎◌, inl, inr, ℕ, true, List, [], ◌∷◌, Option,
}
use netops_copilot.Prelude.Text.{Text}
use netops_copilot.Prelude.Time.{Datetime}
use netops_copilot.Prelude.Json.{Json}
use netops_copilot.Prelude.Int.{ℤ}
use netops_copilot.Errors.{Result, ok, err}
use netops_copilot.Exec.{atomic, settle}
use netops_copilot.Storage.Tables.{OutboxRow, Database}
use netops_copilot.Outbox.Commands.{OutboxLease}
use netops_copilot.Outbox.Statements.{is_held, is_unpublished}
use netops_copilot.Outbox.Delivery.{lease_request, lease_available, mark_published, schedule_retry}
use netops_copilot.Outbox.Outcomes.{
  Raises, lease_available-cases, mark_published-cases, schedule_retry-cases,
}
use netops_copilot.Outbox.Rules.{
  Rowwise, Rowwise-refl, Rowwise-trans, update_where-Rowwise, set_lease-MayBecome,
  set_published-MayBecome, set_retry-MayBecome,
}

pub data Operation : Type 0 where
  leasing :
      (token : ℕ) (skipped : List ℕ) (worker_id : Text) (now : Datetime) (limit lease_for : ℤ)
      → Operation
  publishing : OutboxLease → (published_at : Datetime) → Operation
  retrying : OutboxLease → (retry_at : Datetime) (error_code : Text) → Operation

module _ (organization_id : ℕ) (loads : Text → Option Json) where
  -- The database after an operation: the transaction is rolled back if the operation raises.
  unfoldable pub deliver : Operation → Database → Database
  deliver (leasing token skipped worker_id now limit lease_for) db =
      (atomic (lease_available organization_id loads token skipped worker_id now limit lease_for)
        db).1
  deliver (publishing l published_at) db =
      (atomic (mark_published organization_id l published_at) db).1
  deliver (retrying l retry_at error_code) db =
      (atomic (schedule_retry organization_id l retry_at error_code) db).1

  unfoldable pub deliver_all : List Operation → Database → Database
  deliver_all [] db = db
  deliver_all (op ∷ ops) db = deliver_all ops (deliver op db)

held-unpublished :
    (org id : ℕ) (token : Text) (r : OutboxRow)
    → is_held org id token r ≡ true
    → is_unpublished r ≡ true
held-unpublished org id token r h = ground (arith, h)

-- A transaction whose method raises leaves the table, and any other one keeps what it wrote.
transaction-Rowwise :
    {A : Type 0} (m : Result A × Database) (db next : Database)
    → (Raises m ⊎ ((a : A) × (m ≡ (ok a, next))))
    → Rowwise db.outbox_events next.outbox_events
    → Rowwise db.outbox_events (settle m db).1.outbox_events
transaction-Rowwise (ok a, t) db next (inl (e, p)) h = cc
transaction-Rowwise (err x, t) db next (inl r) h = Rowwise-refl db.outbox_events
transaction-Rowwise m db next (inr (a, p)) h = rw p h

module _ (organization_id : ℕ) (loads : Text → Option Json) where
  deliver-Rowwise :
      (op : Operation) (db : Database)
      → Rowwise db.outbox_events (deliver organization_id loads op db).outbox_events
  unfolding deliver
  deliver-Rowwise (leasing token skipped worker_id now limit lease_for) db =
      elim (lease_available-cases organization_id db loads token skipped worker_id now limit
        lease_for) [
          | inl h ↦
              transaction-Rowwise
                (lease_available organization_id loads token skipped worker_id now limit lease_for
                  db)
                db db (inl h) (Rowwise-refl db.outbox_events)
          | inr (events, _, _, p) ↦
              transaction-Rowwise
                (lease_available organization_id loads token skipped worker_id now limit lease_for
                  db)
                db _ (inr (events, p))
                (update_where-Rowwise _ _
                  (λ r _.
                    set_lease-MayBecome
                      (lease_request organization_id token skipped worker_id now limit lease_for) r)
                  db.outbox_events)
        ]
  deliver-Rowwise (publishing l at) db = elim (mark_published-cases organization_id db l at) [
    | inl h ↦
        transaction-Rowwise (mark_published organization_id l at db) db db (inl h)
          (Rowwise-refl db.outbox_events)
    | inr (_, p) ↦ transaction-Rowwise (mark_published organization_id l at db) db _ (inr (tt, p)) (
        update_where-Rowwise _ _
          (λ r held.
            set_published-MayBecome _ r
              (held-unpublished organization_id l.outbox_id l.lease_token r held))
          db.outbox_events)
  ]
  deliver-Rowwise (retrying l at code) db =
      elim (schedule_retry-cases organization_id db l at code) [
        | inl h ↦
            transaction-Rowwise (schedule_retry organization_id l at code db) db db (inl h)
              (Rowwise-refl db.outbox_events)
        | inr (_, p) ↦
            transaction-Rowwise (schedule_retry organization_id l at code db) db _ (inr (tt, p))
              (update_where-Rowwise _ _ (λ r _. set_retry-MayBecome _ _ r) db.outbox_events)
      ]

  -- Over any sequence of leases, acknowledgements and retries, whatever their arguments and
  -- whichever of them raise, every row of the outbox goes from its old to its new version by a
  -- change that the database trigger allows: the rows and their order stay, the business fields
  -- stay, attempts never go down, and a time of publication, once set, stays.
  pub deliver_all-Rowwise :
      (ops : List Operation) (db : Database)
      → Rowwise db.outbox_events (deliver_all organization_id loads ops db).outbox_events
  unfolding deliver_all
  deliver_all-Rowwise [] db = Rowwise-refl db.outbox_events
  deliver_all-Rowwise (op ∷ ops) db =
      Rowwise-trans _ _ _ (deliver-Rowwise op db)
        (deliver_all-Rowwise ops (deliver organization_id loads op db))
