-- ===== src/Ledger/Latest.antt =====
-- Which row is the active attempt of services/api/netops_api/application/artifact_processing.py
-- after a row has been added.
use netops_copilot.Prelude.{
  ℕ, ltb, ◌==◌, nat_eq, nat_beq_iff, option_eq, option_beq_iff, ◌≤◌, ◌<◌, ◌≡◌, refl, sym, ap, ◌∙◌,
  inl, inr, true, false, Bool-cases, Option-cases, none, some, List, [], ◌∷◌, arith,
}
use netops_copilot.Prelude.Lists.{All, All-map, take, keep}
use netops_copilot.Errors.{ok}
use netops_copilot.Keyset.Order.{precedes, precedes3}
use netops_copilot.Keyset.Sort.{sort, All-sort, insert-first}
use netops_copilot.Ledger.Tables.{quarantined, processing_state_eq, ProcessingRow, Ledger}
use netops_copilot.Ledger.Trigger.{
  is_of, recent_first, first, highest_attempt, prior_row, may_follow, validate_event,
}
use netops_copilot.Ledger.Branches.{own}
use netops_copilot.Ledger.Record.{active_first, select_active_attempt}

highest-empty : (rows : List ProcessingRow) → highest_attempt rows ≡ none → rows ≡ []
unfolding highest_attempt
highest-empty [] h = refl
highest-empty (r ∷ rows) h = elim (Option-cases (highest_attempt rows)) [
  | inl p ↦ let e = rw p at h in cc e
  | inr (m, p) ↦ let e = rw p at h in cc e
]

-- No attempt is higher than the highest one.
pub highest-bound :
    (rows : List ProcessingRow) (n : ℕ)
    → highest_attempt rows ≡ some n
    → All (λ (r : ProcessingRow). r.attempt ≤ n) rows
unfolding highest_attempt
highest-bound [] n h = tt
highest-bound (r ∷ rows) n h = elim (Option-cases (highest_attempt rows)) [
  | inl p ↦
      let e = rw p at h in
      let same : r.attempt ≡ n = cc e in
      let no_rows = highest-empty rows p in (omega (arith, same), rw no_rows tt)
  | inr (m, p) ↦
      let e = rw p at h in
      let later = highest-bound rows m p in
      elim (Bool-cases (ltb m r.attempt)) [
        | inl t ↦
            let e' = rw t at e in
            let same : r.attempt ≡ n = cc e' in
            (
              omega (arith, same),
              All-map (λ (q : ProcessingRow) (b : q.attempt ≤ m). ground (arith, b, t, same)) rows
                  later,
            )
        | inr f ↦
            let e' = rw f at e in
            let same : m ≡ n = cc e' in
            (
              ground (arith, f, same),
              All-map (λ (q : ProcessingRow) (b : q.attempt ≤ m). omega (arith, b, same)) rows
                  later,
            )
      ]
]

-- A row that is let through and does not start an attempt belongs to the highest one.
pub validate-highest :
    (rows : List ProcessingRow) (new : ProcessingRow)
    → (new.state == quarantined) ≡ false
    → validate_event rows new ≡ ok tt
    → highest_attempt rows ≡ some new.attempt
unfolding validate_event
validate-highest rows new other h =
    let e = rw other at h in
    elim (Bool-cases (highest_attempt rows == some new.attempt)) [
      | inl t ↦ (option_beq_iff (highest_attempt rows) (some new.attempt)).0 t
      | inr f ↦ absurd (let bad = rw f at e in cc bad)
    ]

module _ (x : ProcessingRow) (l : Ledger) where
  -- A row of the highest attempt that is more recent than the others becomes the active one.
  pub select_active-added :
      highest_attempt (own x l) ≡ some x.attempt
      → All (λ (r : ProcessingRow). r.occurred_at < x.occurred_at) (own x l)
      → select_active_attempt x.organization_id x.artifact_id (record l { events = x ∷ l.events })
        ≡ x ∷ []
  unfolding select_active_attempt precedes3 precedes
  select_active-added top recent =
      let self : is_of x.organization_id x.artifact_id x ≡ true =
        rw
          (
            (nat_beq_iff x.organization_id x.organization_id).1 refl,
            (nat_beq_iff x.artifact_id x.artifact_id).1 refl,
          )
          refl in
      let before : All (λ (r : ProcessingRow). active_first.less x r ≡ true) (own x l) =
        less_all (own x l) (highest-bound (own x l) x.attempt top) recent in
      rw self (
        ap (take 1) (
          insert-first active_first x (sort active_first (own x l)) (
            All-sort active_first (λ (r : ProcessingRow). active_first.less x r ≡ true) (own x l)
              before)))
    where
      less_all :
          (rows : List ProcessingRow)
          → All (λ (r : ProcessingRow). r.attempt ≤ x.attempt) rows
          → All (λ (r : ProcessingRow). r.occurred_at < x.occurred_at) rows
          → All (λ (r : ProcessingRow). active_first.less x r ≡ true) rows
      less_all [] a b = tt
      less_all (r ∷ rows) (a, ha) (b, hb) = (ground (arith, a, b), less_all rows ha hb)

-- An artifact with one row.
pub select_active-only :
    (org artifact_id : ℕ) (l : Ledger) (active q : ProcessingRow)
    → keep (is_of org artifact_id) l.events ≡ q ∷ []
    → select_active_attempt org artifact_id l ≡ active ∷ []
    → active ≡ q
unfolding select_active_attempt
select_active-only org artifact_id l active q only one =
    let e : q ∷ [] ≡ active ∷ [] = ap (λ rows. take 1 (sort active_first rows)) (sym only) ∙ one in
    cc e

-- An earlier row `x` of the attempt of the only row `q` hides behind it.
module _ (x q : ProcessingRow) (together : x.attempt ≡ q.attempt)
    (behind : x.occurred_at < q.occurred_at) where
  sorted_behind : sort active_first (x ∷ q ∷ []) ≡ q ∷ x ∷ []
  unfolding precedes3 precedes
  sorted_behind =
      let later : active_first.less x q ≡ false = ground (arith, together, behind) in rw later refl

  recent_behind : sort recent_first (x ∷ q ∷ []) ≡ q ∷ x ∷ []
  unfolding precedes
  recent_behind =
      let later : recent_first.less x q ≡ false = ground (arith, behind) in rw later refl

  pub select_active-behind :
      (org artifact_id : ℕ) (l : Ledger)
      → keep (is_of org artifact_id) l.events ≡ x ∷ q ∷ []
      → select_active_attempt org artifact_id l ≡ q ∷ []
  unfolding select_active_attempt
  select_active-behind org artifact_id l rows =
      ap (λ rs. take 1 (sort active_first rs)) rows ∙ ap (take 1) sorted_behind

  prior_behind : prior_row q.attempt (x ∷ q ∷ []) ≡ some q
  unfolding prior_row
  prior_behind =
      let own_attempt = (nat_beq_iff q.attempt q.attempt).1 refl in
      let x_attempt = (nat_beq_iff x.attempt q.attempt).1 together in
      rw (x_attempt, own_attempt) (ap first recent_behind)

  highest_behind : highest_attempt (x ∷ q ∷ []) ≡ some q.attempt
  unfolding highest_attempt
  highest_behind = ground (arith, together)

  -- The trigger lets through what may follow the only row.
  pub validate-behind :
      (y : ProcessingRow)
      → y.attempt ≡ q.attempt
      → (y.state == quarantined) ≡ false
      → may_follow (some q) y.state ≡ true
      → validate_event (x ∷ q ∷ []) y ≡ ok tt
  unfolding validate_event
  validate-behind y at_attempt other follows =
      let top : (highest_attempt (x ∷ q ∷ []) == some y.attempt) ≡ true =
        (option_beq_iff (highest_attempt (x ∷ q ∷ [])) (some y.attempt)).1
          (highest_behind ∙ ap some (sym at_attempt)) in
      let prior : prior_row y.attempt (x ∷ q ∷ []) ≡ some q =
        ap (λ n. prior_row n (x ∷ q ∷ [])) at_attempt ∙ prior_behind in
      rw (other, top, prior, follows) refl
