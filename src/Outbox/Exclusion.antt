-- ===== src/Outbox/Exclusion.antt =====
-- Rows under a lease, against the WHERE clauses of the other statements.
use netops_copilot.Prelude.{
  ℕ, ◌<◌, ◌==◌, nat_eq, list_eq, option_eq, nat_beq_iff, &&-true, ◌≡◌, refl, ap, Bool, true, false,
  ◌&&◌, Bool-cases, contains, Option, List, [], ◌∷◌, map, arith, inl, inr,
}
use netops_copilot.Prelude.Lists.{any, keep}
use netops_copilot.Prelude.Text.{Text}
use netops_copilot.Prelude.Json.{Json}
use netops_copilot.Errors.{ok, ◌>>=◌, >>=-eq-ok}
use netops_copilot.Storage.Tables.{OutboxRow}
use netops_copilot.Outbox.Commands.{LeasedOutboxEvent, leased_event, leased_events}
use netops_copilot.Outbox.Statements.{
  LeaseRequest, is_ready, candidates, row_id, is_chosen, is_held, set_lease, update_where,
}

abbrev pub event_outbox_id : LeasedOutboxEvent → ℕ
event_outbox_id e = e.outbox_id

leased_event-id :
    (loads : Text → Option Json) (r : OutboxRow) (e : LeasedOutboxEvent)
    → leased_event loads r ≡ ok e
    → e.outbox_id ≡ r.id
unfolding leased_event
leased_event-id loads r e h = ground (arith, h)

pub leased_events-ids :
    (loads : Text → Option Json) (rows : List OutboxRow) (events : List LeasedOutboxEvent)
    → leased_events loads rows ≡ ok events
    → map event_outbox_id events ≡ map row_id rows
unfolding leased_events
leased_events-ids loads [] events h = cc h
leased_events-ids loads (r ∷ rows) events h =
    let (e, p, q) =
      >>=-eq-ok (leased_event loads r) (λ e. leased_events loads rows >>= λ rest. ok (e ∷ rest))
        h in
    let (rest, p2, q2) = >>=-eq-ok (leased_events loads rows) (λ rest. ok (e ∷ rest)) q in
    let whole : events ≡ e ∷ rest = cc q2 in
    rw (whole, leased_event-id loads r e p, leased_events-ids loads rows rest p2) refl

pub set_lease-ids :
    (q : LeaseRequest) (rows : List OutboxRow)
    → map row_id (map (set_lease q) rows) ≡ map row_id rows
set_lease-ids q [] = refl
set_lease-ids q (r ∷ rows) = ap (λ (l : List ℕ). r.id ∷ l) (set_lease-ids q rows)

pub update_where-none :
    (test : OutboxRow → Bool) (set : OutboxRow → OutboxRow) (rows : List OutboxRow)
    → keep test rows ≡ []
    → update_where test set rows ≡ rows
unfolding update_where
update_where-none test set [] h = refl
update_where-none test set (r ∷ rows) h = elim (Bool-cases (test r)) [
  | inl p ↦ let e = rw p at h in cc e
  | inr p ↦ rw (p, update_where-none test set rows (rw p at h)) refl
]

module _ (q : LeaseRequest) (table : List OutboxRow) (i : ℕ) where
  chosen-id :
      (r : OutboxRow)
      → (is_chosen q table r && i == r.id) ≡ true
      → contains (map row_id (candidates q table)) i ≡ true
  chosen-id r h =
      let both = &&-true (is_chosen q table r) (i == r.id) h in
      let found =
        &&-true (contains (map row_id (candidates q table)) r.id)
          (r.organization_id == q.organization_id) both.0 in
      rw ((nat_beq_iff i r.id).0 both.1) found.0

  pub any-chosen :
      (rows : List OutboxRow)
      → any (λ (r : OutboxRow). is_chosen q table r && i == r.id) rows ≡ true
      → contains (map row_id (candidates q table)) i ≡ true
  any-chosen [] h = cc h
  any-chosen (r ∷ rows) h = elim (Bool-cases (is_chosen q table r && i == r.id)) [
    | inl p ↦ chosen-id r p
    | inr p ↦ any-chosen rows (rw p at h)
  ]

  module _ (taken : contains (map row_id (candidates q table)) i ≡ true) where
    not_chosen :
        (r : OutboxRow)
        → is_chosen q table r ≡ false
        → (r.organization_id == q.organization_id && i == r.id) ≡ false
    not_chosen r h = elim (Bool-cases (i == r.id)) [
      | inr p ↦ rw p (ground arith)
      | inl p ↦ ground (arith, rw (rw ((nat_beq_iff i r.id).0 p) at taken) at h)
    ]

    -- No row of that identity is ready again before the lease has run out.
    pub leased-not_ready :
        (next : LeaseRequest)
        → next.organization_id ≡ q.organization_id
        → next.lease_expired_at < q.now
        → (rows : List OutboxRow)
        → any
            (λ (r : OutboxRow). is_ready next r && i == r.id)
            (update_where (is_chosen q table) (set_lease q) rows)
          ≡ false
    unfolding update_where
    leased-not_ready next same_org early [] = refl
    leased-not_ready next same_org early (r ∷ rows) = elim (Bool-cases (is_chosen q table r)) [
      | inl p ↦ rw (p, leased-not_ready next same_org early rows) (ground (arith, early))
      | inr p ↦ rw (p, leased-not_ready next same_org early rows) (ground (arith, not_chosen r p))
    ]

    -- No row of that identity is held by another token.
    pub leased-not_held :
        (token : Text)
        → (q.lease_token == token) ≡ false
        → (rows : List OutboxRow)
        → keep
            (is_held q.organization_id i token)
            (update_where (is_chosen q table) (set_lease q) rows)
          ≡ []
    unfolding update_where
    leased-not_held token other [] = refl
    leased-not_held token other (r ∷ rows) = elim (Bool-cases (is_chosen q table r)) [
      | inl p ↦ rw (p, leased-not_held token other rows) (ground (arith, other))
      | inr p ↦ rw (p, leased-not_held token other rows) (ground (arith, not_chosen r p))
    ]
