-- ===== src/Ledger/Outcomes.antt =====
-- The branches of `record_scan_outcome` of
-- services/api/netops_api/application/artifact_processing.py.
use netops_copilot.Prelude.{
  ℕ, ◌==◌, ◌≡◌, refl, ap, ◌∙◌, ◌⊎◌, inl, inr, true, false, Bool-cases, some, List, [], ◌∷◌,
  dec_beq_iff,
}
use netops_copilot.Prelude.Lists.{take, keep}
use netops_copilot.Errors.{Exception, processing_state_conflict, ok, err}
use netops_copilot.Exec.{settle, resume, pure}
use netops_copilot.Keyset.Sort.{sort}
use netops_copilot.Ledger.Tables.{
  quarantined, ProcessingState-discrete, processing_state_eq, ProcessingRow, Ledger,
}
use netops_copilot.Ledger.Commands.{RecordArtifactScanOutcome}
use netops_copilot.Ledger.Trigger.{is_of, insert_processing_event, validate_event}
use netops_copilot.Ledger.Branches.{own, insert_processing_event-cases}
use netops_copilot.Ledger.Record.{
  active_first, select_active_attempt, outcome_row, recorded, append_outcome, record_scan_outcome,
}

take-one {ℓ} : {A : Type ℓ} (xs : List A) → (take 1 xs ≡ []) ⊎ ((x : A) × (take 1 xs ≡ x ∷ []))
take-one [] = inl refl
take-one (x ∷ xs) = inr (x, refl)

select_active-cases :
    (org artifact_id : ℕ) (l : Ledger)
    → (select_active_attempt org artifact_id l ≡ [])
      ⊎ ((x : ProcessingRow) × (select_active_attempt org artifact_id l ≡ x ∷ []))
unfolding select_active_attempt
select_active-cases org artifact_id l =
    take-one (sort active_first (keep (is_of org artifact_id) l.events))

module _ (org : ℕ) (id : ℕ) (c : RecordArtifactScanOutcome) (l : Ledger) where
  -- What `record_scan_outcome` does once the SELECT has found no row or one.
  pub record_scan_outcome-none :
      select_active_attempt org c.artifact_id l ≡ []
      → record_scan_outcome org id c l ≡ (err (processing_state_conflict c.artifact_id), l)
  unfolding record_scan_outcome append_outcome
  record_scan_outcome-none h = rw h refl

  pub record_scan_outcome-some :
      (active : ProcessingRow)
      → select_active_attempt org c.artifact_id l ≡ active ∷ []
      → record_scan_outcome org id c l ≡ settle (append_outcome org id c (some active) l) l
  unfolding record_scan_outcome
  record_scan_outcome-some active h = rw h refl

  pub append_outcome-conflict :
      (active : ProcessingRow)
      → (active.state == quarantined) ≡ false
      → append_outcome org id c (some active) l ≡ (err (processing_state_conflict c.artifact_id), l)
  unfolding append_outcome
  append_outcome-conflict active h = rw h refl

  pub append_outcome-insert :
      (active : ProcessingRow)
      → (active.state == quarantined) ≡ true
      → append_outcome org id c (some active) l
        ≡ resume
            (insert_processing_event (outcome_row org id c active) l)
            (λ _. pure (recorded c active))
  unfolding append_outcome
  append_outcome-insert active h = rw h refl

  -- The ledger with the outcome for the active attempt.
  abbrev pub with_outcome : ProcessingRow → Ledger
  with_outcome active = record l { events = outcome_row org id c active ∷ l.events }

  -- Either the latest row of the highest attempt of the artifact is quarantined, the trigger lets
  -- the outcome through, and the call appends the outcome of that attempt to the ledger, changes
  -- nothing else and returns it; or the call raises and the ledger stays as it was.
  pub record_scan_outcome-cases :
      ((active : ProcessingRow) × (select_active_attempt org c.artifact_id l ≡ active ∷ [])
        × (active.state ≡ quarantined)
        × (validate_event (own (outcome_row org id c active) l) (outcome_row org id c active)
            ≡ ok tt)
        × (record_scan_outcome org id c l ≡ (ok (recorded c active), with_outcome active)))
      ⊎ ((e : Exception) × (record_scan_outcome org id c l ≡ (err e, l)))
  unfolding ProcessingState-discrete
  record_scan_outcome-cases = elim (select_active-cases org c.artifact_id l) [
    | inl none_found ↦
        inr (processing_state_conflict c.artifact_id, record_scan_outcome-none none_found)
    | inr (active, one) ↦
        let start = record_scan_outcome-some active one in
        elim (Bool-cases (active.state == quarantined)) [
          | inr other ↦ inr (
            processing_state_conflict c.artifact_id,
            start ∙ ap (λ m. settle m l) (append_outcome-conflict active other),
          )
          | inl is ↦
              let q = (dec_beq_iff ProcessingState-discrete active.state quarantined).0 is in
              let goes = start ∙ ap (λ m. settle m l) (append_outcome-insert active is) in
              elim (insert_processing_event-cases (outcome_row org id c active) l) [
                | inl (valid, p) ↦ inl (
                  active,
                  one,
                  q,
                  valid,
                  goes ∙ ap (λ m. settle (resume m (λ _. pure (recorded c active))) l) p,
                )
                | inr (e, p) ↦
                    inr (e, goes ∙ ap (λ m. settle (resume m (λ _. pure (recorded c active))) l) p)
              ]
        ]
  ]
