-- ===== src/Worker/Verified.antt =====
-- Which scans let an artifact be verified, in services/worker/netops_worker.
use netops_copilot.Prelude.{ℕ, ◌==◌, nat_eq, ◌≡◌, refl, sym, ap, ◌∙◌, inl, inr, not, none, some}
use netops_copilot.Errors.{value_error, Result, ok, raise_if, >>=-eq-ok, Result-cases}
use netops_copilot.Prelude.Time.{is_utc}
use netops_copilot.Ledger.Tables.{verified, Ledger}
use netops_copilot.Ledger.Commands.{RecordedArtifactScanOutcome, check_scan_outcome}
use netops_copilot.Ledger.Record.{outcome_state, recorded}
use netops_copilot.Ledger.Outcomes.{record_scan_outcome-cases}
use netops_copilot.Worker.Jobs.{ArtifactProcessingJob}
use netops_copilot.Worker.Processor.{
  ScanDisposition, clean, rejected, unavailable, ScanResult, RedactionResult,
  ArtifactProcessingResult, recorded_disposition, after_scan, process, Recorder, outcome_command,
  record_result,
}

-- The recorded state is that of the scan.
record_result-state :
    (settings : Recorder) (id : ℕ) (job : ArtifactProcessingJob) (result : ArtifactProcessingResult)
    (l after : Ledger) (r : RecordedArtifactScanOutcome)
    → record_result settings id job result l ≡ (ok r, after)
    → r.state ≡ outcome_state (recorded_disposition result.scan.disposition)
unfolding record_result
record_result-state settings id job result l after r h =
    elim (Result-cases (
      raise_if (not (result.artifact_id == job.artifact_id))
        (value_error "Processing result artifact does not match its job."))) [
          | inr (e, p) ↦ absurd (let g = rw p at h in cc g)
          | inl (u, p) ↦
              let g = rw p at h in
              elim (Result-cases (
                raise_if (not (is_utc settings.occurred_at))
                  (value_error "clock must return a timezone-aware UTC datetime."))) [
                    | inr (e, q) ↦ absurd (let g2 = rw q at g in cc g2)
                    | inl (v, q) ↦
                        let g2 = rw q at g in
                        elim (Result-cases
                          (check_scan_outcome (outcome_command settings job result))) [
                            | inr (e, s) ↦ absurd (let g3 = rw s at g2 in cc g3)
                            | inl (w, s) ↦
                                let g3 = rw s at g2 in
                                elim (record_scan_outcome-cases job.organization_id id
                                  (outcome_command settings job result) l) [
                                    | inr (e, t) ↦ absurd (let bad = sym t ∙ g3 in cc bad)
                                    | inl (active, one, is, valid, t) ↦
                                        let good = sym t ∙ g3 in
                                        let same : recorded (outcome_command settings job result)
                                              active
                                            ≡ r =
                                          cc good in
                                        ap (λ (x : RecordedArtifactScanOutcome). x.state) (sym same)
                                  ]
                          ]
                  ]
        ]

module _ (scan : ArtifactProcessingJob → Result ScanResult)
    (redact : ArtifactProcessingJob → Result RedactionResult) (job : ArtifactProcessingJob) where
  -- A result whose state is verified comes from a clean scan and a redaction.
  clean_only :
      (s : ScanResult) (d : ScanDisposition) (result : ArtifactProcessingResult)
      → s.disposition ≡ d
      → after_scan scan redact job s d ≡ ok result
      → outcome_state (recorded_disposition result.scan.disposition) ≡ verified
      → (d ≡ clean) × ((r : RedactionResult) × (redact job ≡ ok r) × (result.redaction ≡ some r))
  unfolding after_scan
  clean_only s clean result p h v =
      let (r, q, k) = >>=-eq-ok (redact job) _ h in
      let same : record { artifact_id = job.artifact_id; scan = s; redaction = some r } ≡ result =
        cc k in
      (refl, (r, q, ap (λ (x : ArtifactProcessingResult). x.redaction) (sym same)))
  clean_only s rejected result p h v =
      let same : record { artifact_id = job.artifact_id; scan = s; redaction = none } ≡ result =
        cc h in
      let state =
        ap
          (λ (x : ArtifactProcessingResult).
            outcome_state (recorded_disposition x.scan.disposition))
          same
        ∙ v in
      let bad =
        ap (λ (x : ScanDisposition). outcome_state (recorded_disposition x)) (sym p) ∙ state in
      absurd (cc bad)
  clean_only s unavailable result p h v =
      let same : record { artifact_id = job.artifact_id; scan = s; redaction = none } ≡ result =
        cc h in
      let state =
        ap
          (λ (x : ArtifactProcessingResult).
            outcome_state (recorded_disposition x.scan.disposition))
          same
        ∙ v in
      let bad =
        ap (λ (x : ScanDisposition). outcome_state (recorded_disposition x)) (sym p) ∙ state in
      absurd (cc bad)

-- If the result of processing a job is recorded in the ledger as verified, the scanner called the
-- artifact clean, and the redactor returned a derivative, which the result holds.
pub process-verified :
    (scan : ArtifactProcessingJob → Result ScanResult)
    (redact : ArtifactProcessingJob → Result RedactionResult) (settings : Recorder) (id : ℕ)
    (job : ArtifactProcessingJob) (result : ArtifactProcessingResult) (l after : Ledger)
    (r : RecordedArtifactScanOutcome)
    → process scan redact job ≡ ok result
    → record_result settings id job result l ≡ (ok r, after)
    → r.state ≡ verified
    → (s : ScanResult) × (d : RedactionResult) × (scan job ≡ ok s)
      × (s.disposition ≡ clean)
      × (redact job ≡ ok d)
      × (result.redaction ≡ some d)
unfolding process
process-verified scan redact settings id job result l after r done stored is =
    let (s, p, q) = >>=-eq-ok (scan job) _ done in
    let state = sym (record_result-state settings id job result l after r stored) ∙ is in
    let (c, (d, k, m)) = clean_only scan redact job s s.disposition result refl q state in
    (s, d, p, c, k, m)
