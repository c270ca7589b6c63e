-- ===== src/Ledger/Once.antt =====
-- Second outcomes for one artifact in services/api/netops_api/application/artifact_processing.py.
use netops_copilot.Prelude.{
  ℕ, ◌==◌, ◌<◌, ◌≡◌, refl, sym, ap, ◌∙◌, inl, inr, true, false, some, [], ◌∷◌, dec_beq_iff,
  nat_beq_iff, nat_eq,
}
use netops_copilot.Prelude.Lists.{All, keep}
use netops_copilot.Errors.{processing_state_conflict, ok, err}
use netops_copilot.Exec.{settle, resume, pure}
use netops_copilot.Ledger.Tables.{
  quarantined, ProcessingState-discrete, processing_state_eq, ProcessingRow, Ledger,
}
use netops_copilot.Ledger.Commands.{
  ArtifactScanDisposition, clean, rejected, unavailable, RecordArtifactScanOutcome,
  RecordedArtifactScanOutcome,
}
use netops_copilot.Ledger.Trigger.{
  is_of, may_follow, validate_event, store_event, store_if, insert_processing_event,
}
use netops_copilot.Ledger.Branches.{own}
use netops_copilot.Ledger.Latest.{
  validate-highest, select_active-added, select_active-only, select_active-behind, validate-behind,
}
use netops_copilot.Ledger.Record.{
  outcome_state, outcome_row, recorded, record_scan_outcome, select_active_attempt,
}
use netops_copilot.Ledger.Outcomes.{
  with_outcome, record_scan_outcome-cases, record_scan_outcome-some, append_outcome-conflict,
  append_outcome-insert,
}

-- An outcome is no quarantine.
pub outcome_state-other : (d : ArtifactScanDisposition) → (outcome_state d == quarantined) ≡ false
unfolding ProcessingState-discrete
outcome_state-other clean = refl
outcome_state-other rejected = refl
outcome_state-other unavailable = refl

-- Once an outcome is recorded whose time is after that of every earlier row of the artifact, each
-- further outcome for the artifact, of whatever attempt or disposition, raises the state conflict
-- and leaves the ledger as it is.
pub record_scan_outcome-once :
    (org id : ℕ) (c : RecordArtifactScanOutcome) (l l' : Ledger) (r : RecordedArtifactScanOutcome)
    → record_scan_outcome org id c l ≡ (ok r, l')
    → All
        (λ (q : ProcessingRow). q.occurred_at < c.occurred_at.instant)
        (keep (is_of org c.artifact_id) l.events)
    → (id2 : ℕ) (d : RecordArtifactScanOutcome) → d.artifact_id ≡ c.artifact_id
    → record_scan_outcome org id2 d l' ≡ (err (processing_state_conflict d.artifact_id), l')
record_scan_outcome-once org id c l l' r done recent id2 d same =
    elim (record_scan_outcome-cases org id c l) [
      | inr (e, p) ↦ absurd (let bad = sym p ∙ done in cc bad)
      | inl (active, one, is, valid, p) ↦
          let row = outcome_row org id c active in
          let both = sym p ∙ done in
          let stored : with_outcome org id c l active ≡ l' = cc both in
          let top = validate-highest (own row l) row (outcome_state-other c.disposition) valid in
          let found : select_active_attempt org d.artifact_id l' ≡ row ∷ [] =
            rw (same, sym stored) (select_active-added row l top recent) in
          record_scan_outcome-some org id2 d l' row found
          ∙ ap (λ m. settle m l')
              (append_outcome-conflict org id2 d l' row (outcome_state-other c.disposition))
    ]

inserted :
    (new : ProcessingRow) (l : Ledger)
    → validate_event (own new l) new ≡ ok tt
    → insert_processing_event new l ≡ store_event new l
unfolding insert_processing_event
inserted new l valid = ap (λ m. store_if m new l) valid

-- A quarantined row may be followed by an outcome.
outcome_follows :
    (q : ProcessingRow) (d : ArtifactScanDisposition)
    → q.state ≡ quarantined
    → may_follow (some q) (outcome_state d) ≡ true
unfolding may_follow ProcessingState-discrete
outcome_follows q clean is = rw is refl
outcome_follows q rejected is = rw is refl
outcome_follows q unavailable is = rw is refl

-- The ledger after an outcome that is earlier than the only row of the artifact.
behind-rows :
    (org id : ℕ) (c : RecordArtifactScanOutcome) (l : Ledger) (q : ProcessingRow)
    → keep (is_of org c.artifact_id) l.events ≡ q ∷ []
    → keep (is_of org c.artifact_id) (with_outcome org id c l q).events
      ≡ outcome_row org id c q ∷ q ∷ []
behind-rows org id c l q only =
    rw ((nat_beq_iff org org).1 refl, (nat_beq_iff c.artifact_id c.artifact_id).1 refl)
      (ap (λ rows. outcome_row org id c q ∷ rows) only)

-- If the only earlier row of the artifact is later than an outcome that is recorded, the trigger
-- lets a second outcome through that is earlier than it too: the call succeeds and returns it,
-- whatever the two dispositions, provided that the constraints of the table allow its row.
pub record_scan_outcome-behind :
    (org id : ℕ) (c : RecordArtifactScanOutcome) (l l' : Ledger) (r : RecordedArtifactScanOutcome)
    (q : ProcessingRow)
    → keep (is_of org c.artifact_id) l.events ≡ q ∷ []
    → c.occurred_at.instant < q.occurred_at
    → record_scan_outcome org id c l ≡ (ok r, l')
    → (id2 : ℕ) (d : RecordArtifactScanOutcome) (final : Ledger) → d.artifact_id ≡ c.artifact_id
    → store_event (outcome_row org id2 d q) l' ≡ (ok tt, final)
    → record_scan_outcome org id2 d l' ≡ (ok (recorded d q), final)
unfolding ProcessingState-discrete
record_scan_outcome-behind org id c l l' r q only behind done id2 d final same stores =
    elim (record_scan_outcome-cases org id c l) [
      | inr (e, p) ↦ absurd (let bad = sym p ∙ done in cc bad)
      | inl (active, one, is, valid, p) ↦
          let chosen : active ≡ q = select_active-only org c.artifact_id l active q only one in
          let q_is : q.state ≡ quarantined =
            ap (λ (x : ProcessingRow). x.state) (sym chosen) ∙ is in
          let both = sym p ∙ done in
          let stored : with_outcome org id c l q ≡ l' =
            ap (with_outcome org id c l) (sym chosen)
            ∙ (let s : with_outcome org id c l active ≡ l' = cc both in s) in
          let own_rows : keep (is_of org d.artifact_id) l'.events
              ≡ outcome_row org id c q ∷ q ∷ [] =
            rw (same, sym stored) (behind-rows org id c l q only) in
          let found : select_active_attempt org d.artifact_id l' ≡ q ∷ [] =
            select_active-behind (outcome_row org id c q) q refl behind org d.artifact_id l'
              own_rows in
          let test = (dec_beq_iff ProcessingState-discrete q.state quarantined).1 q_is in
          let let_through : validate_event (own (outcome_row org id2 d q) l')
                (outcome_row org id2 d q)
              ≡ ok tt =
            rw own_rows (
              validate-behind (outcome_row org id c q) q refl behind (outcome_row org id2 d q) refl
                (outcome_state-other d.disposition) (outcome_follows q d.disposition q_is)) in
          record_scan_outcome-some org id2 d l' q found
          ∙ ap (λ m. settle m l')
              (append_outcome-insert org id2 d l' q test
                ∙ ap (λ m. resume m (λ _. pure (recorded d q)))
                    (inserted (outcome_row org id2 d q) l' let_through ∙ stores))
    ]
