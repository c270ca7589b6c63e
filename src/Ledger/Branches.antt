-- ===== src/Ledger/Branches.antt =====
-- The branches of the INSERT statement of
-- services/api/alembic/versions/20260716_05_artifact_processing_ledger.py.
use netops_copilot.Prelude.{
  ℕ, ltb, ◌==◌, nat_eq, nat_beq_iff, option_eq, ◌≡◌, refl, ap, ◌∙◌, ◌⊎◌, inl, inr, Bool-cases,
  Option-cases, ◌&&◌, some, List, [], ◌∷◌,
}
use netops_copilot.Prelude.Lists.{any, keep}
use netops_copilot.Errors.{Exception, integrity_error, ok, err, Result-cases}
use netops_copilot.Keyset.Members.{Member, Member-keep}
use netops_copilot.Keyset.Sort.{sort, Member-sort}
use netops_copilot.Ledger.Tables.{
  processing_state_eq, ProcessingRow, Ledger, check_processing_event,
}
use netops_copilot.Ledger.Trigger.{
  is_of, highest_attempt, recent_first, first, prior_row, validate_event, is_repeat, store_event,
  store_if, insert_processing_event,
}

pub store_event-cases :
    (new : ProcessingRow) (l : Ledger)
    → (store_event new l ≡ (ok tt, record l { events = new ∷ l.events }))
      ⊎ ((e : Exception) × (store_event new l ≡ (err e, l)))
unfolding store_event
store_event-cases new l = elim (Bool-cases (check_processing_event new)) [
  | inr a ↦ inr (integrity_error "ck_artifact_processing_events", rw a refl)
  | inl a ↦ elim (Bool-cases (any (λ (r : ProcessingRow). r.id == new.id) l.events)) [
    | inl b ↦ inr (integrity_error "artifact_processing_events_pkey", rw (a, b) refl)
    | inr b ↦ elim (Bool-cases (any (is_repeat new) l.events)) [
      | inl c ↦
          inr (integrity_error "uq_artifact_processing_events_state_once", rw (a, b) (rw c refl))
      | inr c ↦
          elim (Bool-cases (
            any (λ (a : ℕ × ℕ). a.0 == new.organization_id && a.1 == new.artifact_id)
              l.artifacts)) [
                | inl d ↦ inl (rw (a, b) (rw c (rw d refl)))
                | inr d ↦ inr (
                  integrity_error "artifact_processing_events_artifact_id_fkey",
                  rw (a, b) (rw c (rw d refl)),
                )
              ]
    ]
  ]
]

-- The rows of the artifact of a row.
abbrev pub own : ProcessingRow → Ledger → List ProcessingRow
own new l = keep (is_of new.organization_id new.artifact_id) l.events

pub insert_processing_event-cases :
    (new : ProcessingRow) (l : Ledger)
    → ((validate_event (own new l) new ≡ ok tt)
        × (insert_processing_event new l ≡ (ok tt, record l { events = new ∷ l.events })))
      ⊎ ((e : Exception) × (insert_processing_event new l ≡ (err e, l)))
unfolding insert_processing_event
insert_processing_event-cases new l = elim (Result-cases (validate_event (own new l) new)) [
  | inr (e, p) ↦ inr (e, ap (λ m. store_if m new l) p)
  | inl (u, p) ↦ elim (store_event-cases new l) [
    | inl q ↦ inl (p, ap (λ m. store_if m new l) p ∙ q)
    | inr (e, q) ↦ inr (e, ap (λ m. store_if m new l) p ∙ q)
  ]
]

pub highest-Member :
    (rows : List ProcessingRow) (n : ℕ)
    → highest_attempt rows ≡ some n
    → (q : ProcessingRow) × Member q rows × (q.attempt ≡ n)
unfolding highest_attempt
highest-Member [] n h = cc h
highest-Member (r ∷ rows) n h = elim (Option-cases (highest_attempt rows)) [
  | inl p ↦ let e = rw p at h in (r, inl refl, cc e)
  | inr (m, p) ↦ elim (Bool-cases (ltb m r.attempt)) [
    | inl t ↦ let e = rw p at h in let e' = rw t at e in (r, inl refl, cc e')
    | inr f ↦
        let e = rw p at h in
        let e' = rw f at e in
        let (q, k, same) = highest-Member rows m p in (q, inr k, let c : m ≡ n = cc e' in same ∙ c)
  ]
]

pub prior-Member :
    (attempt : ℕ) (rows : List ProcessingRow) (p : ProcessingRow)
    → prior_row attempt rows ≡ some p
    → Member p rows × (p.attempt ≡ attempt)
unfolding prior_row
prior-Member attempt rows p h = go (sort recent_first kept) refl h
  where
    kept : List ProcessingRow
    kept = keep (λ (r : ProcessingRow). r.attempt == attempt) rows

    go :
        (sorted : List ProcessingRow)
        → sort recent_first kept ≡ sorted
        → first sorted ≡ some p
        → Member p rows × (p.attempt ≡ attempt)
    go [] e h = cc h
    go (x ∷ xs) e h =
        let same : p ≡ x = cc h in
        let m : Member p (sort recent_first kept) = rw e (inl same) in
        let k =
          (Member-keep (λ (r : ProcessingRow). r.attempt == attempt) p rows).0
            ((Member-sort recent_first p kept).0 m) in
        (k.0, (nat_beq_iff p.attempt attempt).0 k.1)
