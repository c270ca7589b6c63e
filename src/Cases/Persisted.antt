-- ===== src/Cases/Persisted.antt =====
-- The outcomes of `persist_transition` of services/api/netops_api/application/cases.py.
use netops_copilot.Prelude.Int.{minus_one}
use netops_copilot.Prelude.{
  Option-cases, String, Bool, Bool-cases, nat_eq, ◌++◌, ℕ, ◌≡◌, refl, ◌⊎◌, inl, inr, none, some,
  List, [], ◌∷◌,
}
use netops_copilot.Prelude.Lists.{List-cases}
use netops_copilot.Errors.{
  Exception, version_conflict, case_not_found, runtime_error, integrity_error, ok, err,
}
use netops_copilot.Exec.{◌>>◌, Exec, pure}
use netops_copilot.Domain.Cases.{Actor, CaseSnapshot, TransitionOutcome}
use netops_copilot.Storage.Tables.{CaseRow, Database}
use netops_copilot.Storage.Inserts.{
  first_broken, insert_transition, insert_event, insert_outbox, insert_audit,
  transition_constraints, event_constraints, outbox_constraints, audit_constraints,
}
use netops_copilot.Storage.Laws.{
  unless_broken, Stores, Stores-done, settle-Stores, guarded-Stores, guarded-resume-Stores,
}
use netops_copilot.Cases.Commands.{CaseRecord, case_record}
use netops_copilot.Cases.Statements.{
  CaseUpdate, is_expected, select_case, updated_rows, update_rows, update_case_version,
}
use netops_copilot.Cases.History.{
  FreshIds, event_row, outbox_row, audit_row, insert_event_and_outbox, insert_audit_event,
}
use netops_copilot.Cases.Transitions.{
  transition_row, transition_details, case_update, get_snapshot, raise_write_conflict,
  or_write_conflict, persist_transition,
}

-- The snapshot of a row.
abbrev pub row_snapshot : CaseRow → CaseSnapshot
row_snapshot r = record { case_id = r.id; state = r.state; version = r.version }

module _ (organization_id : ℕ) where
  -- `get_snapshot` reads one row, or raises; it never writes.
  pub get_snapshot-cases :
      (case_id : ℕ) (db : Database)
      → ((row : CaseRow) × (select_case organization_id case_id db ≡ row ∷ [])
          × (get_snapshot organization_id case_id db ≡ (ok (row_snapshot row), db)))
        ⊎ ((e : Exception) × (get_snapshot organization_id case_id db ≡ (err e, db)))
  unfolding get_snapshot
  get_snapshot-cases case_id db = elim (List-cases (select_case organization_id case_id db)) [
    | inl p ↦ inr (case_not_found case_id, rw p)
    | inr (inl (row, p)) ↦ inl (row, p, rw p)
    | inr (inr (row, next, rest, p)) ↦
        inr (runtime_error "Multiple rows were found when one or none was required", rw p)
  ]

  -- What is raised when no row has the expected version.
  abbrev pub write_conflict : CaseSnapshot → List CaseRow → Exception
  write_conflict s [] = case_not_found s.case_id
  write_conflict s (row ∷ []) = version_conflict s.case_id (minus_one s.version) row.version
  write_conflict s (row ∷ next ∷ rest) =
      runtime_error "Multiple rows were found when one or none was required"

  raise_write_conflict_lem :
      (s : CaseSnapshot) (db : Database)
      → raise_write_conflict organization_id s db
        ≡ (err (write_conflict s (select_case organization_id s.case_id db)), db)
  unfolding raise_write_conflict get_snapshot
  raise_write_conflict_lem s db = elim (List-cases (select_case organization_id s.case_id db)) [
    | inl p ↦ rw p refl
    | inr (inl (row, p)) ↦ rw p refl
    | inr (inr (row, next, rest, p)) ↦ rw p refl
  ]

  -- An update that meets no row changes none.
  update_rows-unmatched :
      (u : CaseUpdate) (rows : List CaseRow)
      → updated_rows organization_id u rows ≡ []
      → update_rows organization_id u rows ≡ rows
  unfolding updated_rows update_rows
  update_rows-unmatched u [] h = refl
  update_rows-unmatched u (r ∷ rows) h = elim (Bool-cases (is_expected organization_id u r)) [
    | inl p ↦ let e = rw p at h in cc e
    | inr p ↦ rw (p, update_rows-unmatched u rows (rw p at h)) refl
  ]

  -- The tables after `persist_transition`.
  abbrev pub persisted : FreshIds → TransitionOutcome → Actor → Database → Database
  persisted ids o actor db =
      let t = some o.event.transition_id in
      record db {
        cases = update_rows organization_id (case_update organization_id o) db.cases;
        case_transitions = transition_row organization_id o.transition actor ∷ db.case_transitions;
        case_events = event_row organization_id o.event t none ∷ db.case_events;
        outbox_events = outbox_row organization_id ids o.event t none ∷ db.outbox_events;
        audit_events =
            audit_row organization_id ids actor "case.transitioned" o.event.correlation_id
              o.event.occurred_at.instant (transition_details organization_id o)
            ∷ db.audit_events;
      }

  module _ (ids : FreshIds) (o : TransitionOutcome) (actor : Actor) (db : Database) where
    matched : List CaseRow
    matched = updated_rows organization_id (case_update organization_id o) db.cases

    updated : Database
    updated = record db {
      cases = update_rows organization_id (case_update organization_id o) db.cases;
    }

    abbrev with_transition : Database
    with_transition = record db {
      cases = update_rows organization_id (case_update organization_id o) db.cases;
      case_transitions = transition_row organization_id o.transition actor ∷ db.case_transitions;
    }

    abbrev with_event : Database
    with_event = record with_transition {
      case_events =
          event_row organization_id o.event (some o.event.transition_id) none ∷ db.case_events;
    }

    abbrev with_outbox : Database
    with_outbox = record with_event {
      outbox_events =
          outbox_row organization_id ids o.event (some o.event.transition_id) none
          ∷ db.outbox_events;
    }

    abbrev audited : List (Bool × String)
    audited =
        audit_constraints
          (audit_row organization_id ids actor "case.transitioned" o.event.correlation_id
            o.event.occurred_at.instant (transition_details organization_id o))
          with_outbox
        ++ []

    abbrev outbox_on : List (Bool × String)
    outbox_on =
        outbox_constraints
          (outbox_row organization_id ids o.event (some o.event.transition_id) none) with_event
        ++ audited

    abbrev events_on : List (Bool × String)
    events_on =
        event_constraints (event_row organization_id o.event (some o.event.transition_id) none)
          with_transition
        ++ outbox_on

    abbrev moved : List (Bool × String)
    moved =
        transition_constraints (transition_row organization_id o.transition actor) (record db {
          cases = update_rows organization_id (case_update organization_id o) db.cases;
        })

    -- The constraints on the four new rows.
    abbrev pub history_constraints : List (Bool × String)
    history_constraints = moved ++ events_on

    -- The three inserts after the update of one row.
    abbrev history : CaseRow → Exec Database CaseRecord
    history row = do
      insert_transition (transition_row organization_id o.transition actor)
      insert_event_and_outbox organization_id ids o.event (some o.event.transition_id) none
      insert_audit_event organization_id ids actor "case.transitioned" o.event.correlation_id
          o.event.occurred_at.instant (transition_details organization_id o)
      pure (case_record row)

    history-Stores :
        (row : CaseRow)
        → Stores
            (first_broken history_constraints)
            (history row updated)
            (case_record row)
            (persisted ids o actor db)
    unfolding updated insert_transition insert_event_and_outbox insert_event insert_outbox
        insert_audit_event insert_audit
    history-Stores row = guarded-Stores _ _ events_on moved _ (
        guarded-resume-Stores _ _ outbox_on _ _ _
          (guarded-Stores _ _ audited _ _ (guarded-Stores _ _ [] _ _ (Stores-done refl))))

    -- If one row has the expected version, all five tables are written, unless a constraint on the
    -- new rows is broken: then the first broken one is raised and the database is as it was. If no
    -- row has the version, the exception says what is stored of the case: nothing, or its version.
    -- If several rows have it, the exception says so. In both cases the database is as it was.
    pub persist_transition-cases :
        ((row : CaseRow) × (updated_rows organization_id (case_update organization_id o) db.cases
            ≡ row ∷ [])
          × (persist_transition organization_id ids o actor db
              ≡ unless_broken
                  (first_broken history_constraints)
                  (ok (case_record row), persisted ids o actor db)
                  db))
        ⊎ ((updated_rows organization_id (case_update organization_id o) db.cases ≡ [])
            × (persist_transition organization_id ids o actor db ≡ (
              err (write_conflict o.snapshot (select_case organization_id o.snapshot.case_id db)),
              db,
            )))
        ⊎ ((row next : CaseRow) × (rest : List CaseRow) × (updated_rows organization_id
                (case_update organization_id o)
                db.cases
              ≡ row ∷ next ∷ rest)
            × (persist_transition organization_id ids o actor db ≡ (
              err (runtime_error "Multiple rows were found when one or none was required"),
              db,
            )))
    unfolding persist_transition or_write_conflict update_case_version updated
    persist_transition-cases =
        elim (List-cases (updated_rows organization_id (case_update organization_id o) db.cases)) [
          | inl p ↦ inr (
              inl (
                p,
                rw
                    (
                      p,
                      update_rows-unmatched (case_update organization_id o) db.cases p,
                      raise_write_conflict_lem o.snapshot db,
                    )
                    refl,
              ))
          | inr (inl (row, p)) ↦ inl (row, p, rw p (settle-Stores _ db (history-Stores row)))
          | inr (inr (row, next, rest, p)) ↦ inr (inr (row, next, rest, p, rw p refl))
        ]

    -- What follows for a caller: the tables are written, or nothing is.
    pub persisted_or_raised :
        ((row : CaseRow) × (updated_rows organization_id (case_update organization_id o) db.cases
            ≡ row ∷ [])
          × (persist_transition organization_id ids o actor db
              ≡ (ok (case_record row), persisted ids o actor db)))
        ⊎ ((e : Exception) × (persist_transition organization_id ids o actor db ≡ (err e, db)))
    persisted_or_raised = elim persist_transition-cases [
      | inr (inl (_, q)) ↦ inr (_, q)
      | inr (inr (_, _, _, _, q)) ↦ inr (_, q)
      | inl (row, p, q) ↦ elim (Option-cases (first_broken history_constraints)) [
        | inl none_broken ↦ inl (row, p, rw none_broken at q)
        | inr (n, broken) ↦ inr (integrity_error n, rw broken at q)
      ]
    ]
