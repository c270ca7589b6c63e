-- ===== src/Outbox/Chosen.antt =====
-- Which rows the statement `_LEASE_AVAILABLE` takes, by their identities.
use netops_copilot.Prelude.{
  ℕ, zero, suc, ◌==◌, nat_eq, ◌≡◌, refl, Bool, true, ◌&&◌, ◌||◌, Bool-cases, contains, List, [],
  ◌∷◌, map, arith, inl, inr,
}
use netops_copilot.Prelude.Lists.{any, keep, take}
use netops_copilot.Storage.Tables.{OutboxRow}
use netops_copilot.Outbox.Statements.{
  LeaseRequest, insert_ordered, ordered, is_before, is_ready, candidates, row_id,
}

contains-take :
    (n : ℕ) (rows : List OutboxRow) (i : ℕ)
    → contains (map row_id (take n rows)) i ≡ true
    → contains (map row_id rows) i ≡ true
contains-take zero rows i h = cc
contains-take (suc n) [] i h = cc
contains-take (suc n) (r ∷ rows) i h = ground (arith, h, contains-take n rows i)

contains-insert_ordered :
    (r : OutboxRow) (rows : List OutboxRow) (i : ℕ)
    → contains (map row_id (insert_ordered r rows)) i ≡ (i == r.id || contains (map row_id rows) i)
contains-insert_ordered r [] i = refl
contains-insert_ordered r (x ∷ rows) i = elim (Bool-cases (is_before r x)) [
  | inl p ↦ rw p refl
  | inr p ↦ rw (p, contains-insert_ordered r rows i) (ground arith)
]

contains-ordered :
    (rows : List OutboxRow) (i : ℕ)
    → contains (map row_id (ordered rows)) i ≡ contains (map row_id rows) i
contains-ordered [] i = refl
contains-ordered (r ∷ rows) i =
    rw (contains-insert_ordered r (ordered rows) i, contains-ordered rows i) refl

pub contains-keep :
    (p : OutboxRow → Bool) (rows : List OutboxRow) (i : ℕ)
    → contains (map row_id (keep p rows)) i ≡ any (λ (r : OutboxRow). p r && i == r.id) rows
contains-keep p [] i = refl
contains-keep p (r ∷ rows) i = elim (Bool-cases (p r)) [
  | inl h ↦ rw (h, contains-keep p rows i) refl
  | inr h ↦ rw (h, contains-keep p rows i) refl
]

-- A candidate is a ready row.
pub candidates-ready :
    (q : LeaseRequest) (rows : List OutboxRow) (i : ℕ)
    → contains (map row_id (candidates q rows)) i ≡ true
    → any (λ (r : OutboxRow). is_ready q r && i == r.id) rows ≡ true
unfolding candidates
candidates-ready q rows i h =
    let all_ready =
      rw (contains-ordered (keep (is_ready q) rows) i) at
        (contains-take q.limit (ordered (keep (is_ready q) rows)) i h) in
    rw (contains-keep (is_ready q) rows i) at all_ready
