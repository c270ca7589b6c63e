-- ===== src/Domain/Lifecycle.antt =====
-- Runs of `apply_transition` of services/api/netops_api/domain/cases.py.
use netops_copilot.Prelude.{ℕ, suc, ◌+◌, ◌≡◌, ◌⊎◌, refl, ap, ◌∙◌, inl, inr, some, [], ◌∷◌, arith}
use netops_copilot.Prelude.Text.{Text, codes}
use netops_copilot.Prelude.Time.{utc}
use netops_copilot.Errors.{ok}
use netops_copilot.Domain.States.{
  CaseState, new, investigating, diagnosed, fix_proposed, needs_information, confirmed, resolved,
  learned, org_admin, human, service,
}
use netops_copilot.Domain.Cases.{
  Actor, CaseSnapshot, TransitionCommand, TransitionOutcome, transition_outcome, apply_transition,
}
use netops_copilot.Domain.Permitted.{
  ◌⟶◌, investigate, diagnose, ask, answer, propose, confirm, resolve, learn, MayConfirm, MayWrite,
  org_admin_confirms, org_admin_writes, here, IsHumanWith, IsAuthorised, HasEvidence, Permitted,
}
use netops_copilot.Domain.Decision.{
  apply_transition-guards, apply_transition-Permitted, Permitted-apply_transition,
}

-- A sequence of accepted commands, each applied to the snapshot that the one before it produced.
pub data Run (s : CaseSnapshot) : CaseSnapshot → Type 0 where
  start : Run s s
  step :
      {t : CaseSnapshot}
      → Run s t
      → (c : TransitionCommand) (o : TransitionOutcome) → apply_transition t c ≡ ok o
      → (u : CaseSnapshot) → u ≡ o.snapshot
      → Run s u

pub steps : {s u : CaseSnapshot} → Run s u → ℕ
steps start = 0
steps (step r c o p u e) = suc (steps r)

-- Some step of the run was taken to the state `t` by a command with the property `P`.
abbrev pub Taken :
    (TransitionCommand → Type 0) → CaseState → {s u : CaseSnapshot} → Run s u → Type 0
Taken P t start = ⊥
Taken P t (step r c o p u e) = ((c.to_state ≡ t) × P c) ⊎ Taken P t r

-- An approver confirmed, with an approval record.
abbrev pub IsApproval : TransitionCommand → Type 0
IsApproval c = IsHumanWith MayConfirm c.actor × ((i : ℕ) × (c.approval_id ≡ some i))

-- A person with write access resolved, with a verification note.
abbrev pub IsVerification : TransitionCommand → Type 0
IsVerification c = IsHumanWith MayWrite c.actor × ((t : Text) × (c.verification_note ≡ some t))

outcome-snapshot :
    (t : CaseSnapshot) (c : TransitionCommand) {o : TransitionOutcome}
    → apply_transition t c ≡ ok o
    → (o.snapshot.case_id ≡ t.case_id)
      × (o.snapshot.version ≡ suc t.version)
      × (o.snapshot.state ≡ c.to_state)
unfolding transition_outcome
outcome-snapshot t c p =
    let (_, _, _, _, _, e) = apply_transition-guards t c p in rw e (refl, omega arith, refl)

-- The version counts the transitions, and the case stays the same.
pub version-Run :
    {s u : CaseSnapshot} (r : Run s u) → (u.case_id ≡ s.case_id) × (u.version ≡ s.version + steps r)
unfolding steps
version-Run start = (refl, omega arith)
version-Run (step {t = t} r c o p u e) = ground (arith, version-Run r, outcome-snapshot t c p)

-- The states that only an approved fix reaches, and those that only a verified one reaches.
abbrev pub IsPastApproval : CaseState → Type 0
IsPastApproval confirmed = Unit
IsPastApproval resolved = Unit
IsPastApproval learned = Unit
IsPastApproval _ = ⊥

abbrev pub IsPastVerification : CaseState → Type 0
IsPastVerification resolved = Unit
IsPastVerification learned = Unit
IsPastVerification _ = ⊥

-- One edge: the target is past approval only by the approval itself, or from such a state.
approval_edge : {f t : CaseState} → f ⟶ t → IsPastApproval t → (t ≡ confirmed) ⊎ IsPastApproval f
approval_edge investigate h = elim h [ ]
approval_edge diagnose h = elim h [ ]
approval_edge ask h = elim h [ ]
approval_edge answer h = elim h [ ]
approval_edge propose h = elim h [ ]
approval_edge confirm h = inl refl
approval_edge resolve h = inr tt
approval_edge learn h = inr tt

verification_edge :
    {f t : CaseState} → f ⟶ t → IsPastVerification t → (t ≡ resolved) ⊎ IsPastVerification f
verification_edge investigate h = elim h [ ]
verification_edge diagnose h = elim h [ ]
verification_edge ask h = elim h [ ]
verification_edge answer h = elim h [ ]
verification_edge propose h = elim h [ ]
verification_edge confirm h = elim h [ ]
verification_edge resolve h = inl refl
verification_edge learn h = inr tt

Permitted-IsApproval :
    {s : CaseSnapshot} {c : TransitionCommand}
    → Permitted s c
    → c.to_state ≡ confirmed
    → IsApproval c
Permitted-IsApproval {c} p e = (rw e at p.authorised, rw e at p.evidence)

Permitted-IsVerification :
    {s : CaseSnapshot} {c : TransitionCommand}
    → Permitted s c
    → c.to_state ≡ resolved
    → IsVerification c
Permitted-IsVerification {c} p e = (rw e at p.authorised, rw e at p.evidence)

-- A case that is confirmed, resolved or learned, and was not so at the start of the run, was
-- confirmed in the run by a person with an approving role and with an approval record.
pub Run-approved :
    {s u : CaseSnapshot} (r : Run s u)
    → ¬ IsPastApproval s.state
    → IsPastApproval u.state
    → Taken IsApproval confirmed r
Run-approved start before past = absurd (before past)
Run-approved (step {t = t} r c o p u e) before past =
    let permitted = apply_transition-Permitted t c p in
    elim (approval_edge permitted.edge (reached past)) [
      | inl q ↦ inl (q, Permitted-IsApproval permitted q)
      | inr h ↦ inr (Run-approved r before h)
    ]
  where
    reached : IsPastApproval u.state → IsPastApproval c.to_state
    reached h = rw (ap (λ (x : CaseSnapshot). x.state) e ∙ (outcome-snapshot t c p).2) at h

-- A case that is resolved or learned, and was not so at the start of the run, was resolved in the
-- run by a person with write access and with a verification note.
pub Run-verified :
    {s u : CaseSnapshot} (r : Run s u)
    → ¬ IsPastVerification s.state
    → IsPastVerification u.state
    → Taken IsVerification resolved r
Run-verified start before past = absurd (before past)
Run-verified (step {t = t} r c o p u e) before past =
    let permitted = apply_transition-Permitted t c p in
    elim (verification_edge permitted.edge (reached past)) [
      | inl q ↦ inl (q, Permitted-IsVerification permitted q)
      | inr h ↦ inr (Run-verified r before h)
    ]
  where
    reached : IsPastVerification u.state → IsPastVerification c.to_state
    reached h = rw (ap (λ (x : CaseSnapshot). x.state) e ∙ (outcome-snapshot t c p).2) at h

-- The actors and the evidence that a case needs on its way.
abbrev pub escort : CaseState → Actor
escort learned = record { actor_id = 2; kind = service; roles = [] }
escort _ = record { actor_id = 1; kind = human; roles = org_admin ∷ [] }

abbrev pub command_to : CaseSnapshot → CaseState → TransitionCommand
command_to s t = record {
  transition_id = 10;
  event_id = 11;
  case_id = s.case_id;
  expected_version = s.version;
  to_state = t;
  actor = escort t;
  correlation_id = 12;
  occurred_at = record { instant = 0; tzinfo = utc };
  approval_id = some 13;
  verification_note = some (codes "checked");
  knowledge_item_id = some 14;
  note = some (codes "asked");
}

escorted : (s : CaseSnapshot) {t : CaseState} → s.state ⟶ t → Permitted s (command_to s t)
escorted s {t} e = record {
  same_case = refl;
  current = refl;
  edge = e;
  authorised = authorised t;
  evidence = evidence t;
}
  where
    writer : IsHumanWith MayWrite (record { actor_id = 1; kind = human; roles = org_admin ∷ [] })
    writer = (refl, here org_admin_writes)

    authorised : (n : CaseState) → IsAuthorised n (escort n)
    authorised confirmed = (refl, here org_admin_confirms)
    authorised resolved = writer
    authorised learned = refl
    authorised _ = inr writer

    evidence : (n : CaseState) → HasEvidence n (command_to s n)
    evidence confirmed = (13, refl)
    evidence resolved = (codes "checked", refl)
    evidence learned = (14, refl)
    evidence needs_information = (codes "asked", refl)
    evidence _ = tt

module _ (s : CaseSnapshot) where
  -- From the state `t` the run can be carried on until the case is learned.
  abbrev Completes : CaseState → Type 0
  Completes t =
      (u : CaseSnapshot)
      → Run s u
      → u.state ≡ t
      → (v : CaseSnapshot) × Run s v × (v.state ≡ learned)

  climb : {t n : CaseState} → t ⟶ n → Completes n → Completes t
  unfolding transition_outcome
  climb {t} {n} e go u r at_t =
      let edge = rw (← at_t) at e in
      let c = command_to u n in
      let o = transition_outcome u c in
      go o.snapshot (step r c o (Permitted-apply_transition u c (escorted u edge)) o.snapshot refl)
        refl

  all-Completes : (t : CaseState) → Completes t
  all-Completes t = by_state t
    where
      learned_done : Completes learned
      learned_done u r e = (u, r, e)

      fixing : Completes diagnosed
      fixing = climb propose (climb confirm (climb resolve (climb learn learned_done)))

      by_state : (n : CaseState) → Completes n
      by_state learned = learned_done
      by_state resolved = climb learn learned_done
      by_state confirmed = climb resolve (climb learn learned_done)
      by_state fix_proposed = climb confirm (climb resolve (climb learn learned_done))
      by_state diagnosed = fixing
      by_state investigating = climb diagnose fixing
      by_state needs_information = climb answer (climb diagnose fixing)
      by_state new = climb investigate (climb diagnose fixing)

  -- No case is stuck: from every snapshot some accepted commands lead to `learned`.
  pub Run-learned : (u : CaseSnapshot) × Run s u × (u.state ≡ learned)
  Run-learned = all-Completes s.state s start refl
