-- ===== src/Cases/Preservation.antt =====
-- `CaseService.transition` against the history of the cases.
use netops_copilot.Prelude.{
  ℕ, suc, nat_eq, ◌≡◌, refl, sym, ap, ◌∙◌, inl, inr, true, Bool-cases, none, some, List, [], ◌∷◌,
  arith,
}
use mathlib.Core.List.{Memᴰ}
use netops_copilot.Prelude.Lists.{All, All-map, keep-single}
use netops_copilot.Errors.{ok, Result-cases}
use netops_copilot.Domain.Cases.{
  Actor, CaseSnapshot, TransitionCommand, TransitionOutcome, transition_outcome, apply_transition,
}
use netops_copilot.Domain.Decision.{apply_transition-guards}
use netops_copilot.Storage.Tables.{CaseRow, Database}
use netops_copilot.Cases.Statements.{CaseUpdate, has_id, is_expected, update_rows, select_case}
use netops_copilot.Cases.History.{FreshIds, event_row, outbox_row}
use netops_copilot.Cases.Transitions.{transition_row, case_update, persist_transition, transition}
use netops_copilot.Cases.Persisted.{
  persisted, row_snapshot, get_snapshot-cases, persisted_or_raised,
}
use netops_copilot.Cases.Consistency.{
  HasHistory, moved_at, IsConsistent, Extends, HasHistory-Extends,
}

-- The three records of an outcome speak of one transition of one case.
pub record IsCoherent (o : TransitionOutcome) : Type 0 where
  pub transition_case : o.transition.case_id ≡ o.snapshot.case_id
  pub transition_version : o.transition.version ≡ o.snapshot.version
  pub transition_target : o.transition.to_state ≡ o.snapshot.state
  pub event_case : o.event.case_id ≡ o.snapshot.case_id
  pub event_version : o.event.aggregate_version ≡ o.snapshot.version
  pub event_transition : o.event.transition_id ≡ o.transition.transition_id

pub transition_outcome-IsCoherent :
    (s : CaseSnapshot) (c : TransitionCommand) → IsCoherent (transition_outcome s c)
unfolding transition_outcome
transition_outcome-IsCoherent s c = ground arith

module _ (organization_id : ℕ) (ids : FreshIds) (o : TransitionOutcome) (actor : Actor)
    (db : Database) (coherent : IsCoherent o) where
  abbrev after : Database
  after = persisted organization_id ids o actor db

  abbrev update : CaseUpdate
  update = case_update organization_id o

  persisted-Extends : Extends db after
  persisted-Extends = record {
    transitions = λ t m. Memᴰ.tail m;
    events = λ e m. Memᴰ.tail m;
    outbox_rows = λ x m. Memᴰ.tail m;
  }

  is_expected-parts :
      (r : CaseRow)
      → is_expected organization_id update r ≡ true
      → (r.organization_id ≡ organization_id)
        × (r.id ≡ o.snapshot.case_id)
        × (suc r.version ≡ o.snapshot.version)
  is_expected-parts r h = ground arith

  moved_row :
      (r : CaseRow)
      → HasHistory db r.organization_id r.id r.state r.version
      → is_expected organization_id update r ≡ true
      → r.state ≡ o.transition.from_state
      → HasHistory after r.organization_id r.id o.snapshot.state o.snapshot.version
  moved_row r h expected from =
      let (org, id, version) = is_expected-parts r expected in
      moved_at (HasHistory-Extends persisted-Extends h) version
        (transition_row organization_id o.transition actor) (Memᴰ.head refl) (sym org)
        (coherent.transition_case ∙ sym id) (sym from) coherent.transition_target
        coherent.transition_version
        (record {
          event = event_row organization_id o.event (some o.event.transition_id) none;
          stored = Memᴰ.head refl;
          event_organization = sym org;
          event_case = coherent.event_case ∙ sym id;
          event_transition = ap some coherent.event_transition;
          event_version = coherent.event_version;
          outbox = outbox_row organization_id ids o.event (some o.event.transition_id) none;
          queued = Memᴰ.head refl;
          outbox_event = refl;
          outbox_organization = sym org;
          outbox_case = coherent.event_case ∙ sym id;
          outbox_version = coherent.event_version;
          outbox_type = refl;
        })

  -- The rows that the update addresses are in the state that the outcome comes from.
  abbrev Expects : CaseRow → Type 0
  Expects r = is_expected organization_id update r ≡ true → r.state ≡ o.transition.from_state

  updated_history :
      (rows : List CaseRow)
      → All (λ (r : CaseRow). HasHistory db r.organization_id r.id r.state r.version) rows
      → All Expects rows
      → All
          (λ (r : CaseRow). HasHistory after r.organization_id r.id r.state r.version)
          (update_rows organization_id update rows)
  unfolding update_rows
  updated_history [] h e = tt
  updated_history (r ∷ rows) h e = elim (Bool-cases (is_expected organization_id update r)) [
    | inl p ↦ (rw p (moved_row r h.0 p (e.0 p)), updated_history rows h.1 e.1)
    | inr p ↦ (rw p (HasHistory-Extends persisted-Extends h.0), updated_history rows h.1 e.1)
  ]

  pub persist_transition-IsConsistent :
      All Expects db.cases
      → IsConsistent db
      → IsConsistent (persist_transition organization_id ids o actor db).1
  persist_transition-IsConsistent e h = elim (persisted_or_raised organization_id ids o actor db) [
    | inl (row, _, p) ↦ rw p (updated_history db.cases h e)
    | inr (x, p) ↦ rw p h
  ]

-- The one row that was read is the one that the update addresses, in the state that was read.
snapshot_expects :
    (organization_id : ℕ) (c : TransitionCommand) (db : Database) (row : CaseRow)
    → select_case organization_id c.case_id db ≡ row ∷ []
    → row.id ≡ c.case_id
    → All
        (λ (r : CaseRow).
          is_expected organization_id
              (case_update organization_id (transition_outcome (row_snapshot row) c))
              r
            ≡ true
          → r.state ≡ row.state)
        db.cases
unfolding select_case transition_outcome
snapshot_expects org c db row only same =
    All-map (λ r is_row expected. ap (λ (x : CaseRow). x.state) (is_row (found r expected)))
      db.cases (keep-single (has_id org c.case_id) db.cases row only)
  where
    found :
        (r : CaseRow)
        → is_expected org (case_update org (transition_outcome (row_snapshot row) c)) r ≡ true
        → has_id org c.case_id r ≡ true
    found r h = ground arith

accepted-IsConsistent :
    (organization_id : ℕ) (ids : FreshIds) (c : TransitionCommand) (db : Database) (row : CaseRow)
    → select_case organization_id c.case_id db ≡ row ∷ []
    → (o : TransitionOutcome) → apply_transition (row_snapshot row) c ≡ ok o
    → IsConsistent db
    → IsConsistent (persist_transition organization_id ids o c.actor db).1
unfolding transition_outcome
accepted-IsConsistent org ids c db row only o accepted h =
    let (same, _, _, _, _, e) = apply_transition-guards (row_snapshot row) c accepted in
    rw e (
      persist_transition-IsConsistent org ids (transition_outcome (row_snapshot row) c) c.actor db
        (transition_outcome-IsCoherent (row_snapshot row) c)
        (snapshot_expects org c db row only same) h)

-- From a database where every case stands at the end of its stored history, `CaseService.transition`
-- leaves one, whatever the command and whether it succeeds or raises.
pub transition-IsConsistent :
    (organization_id : ℕ) (ids : FreshIds) (c : TransitionCommand) (db : Database)
    → IsConsistent db
    → IsConsistent (transition organization_id ids c db).1
unfolding transition
transition-IsConsistent org ids c db h = elim (get_snapshot-cases org c.case_id db) [
  | inr (e, p) ↦ rw p h
  | inl (row, only, p) ↦ rw p (elim (Result-cases (apply_transition (row_snapshot row) c)) [
    | inr (e, q) ↦ rw q h
    | inl (o, q) ↦ rw q (accepted-IsConsistent org ids c db row only o q h)
  ])
]
