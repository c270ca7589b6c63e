-- ===== src/Cases/Concurrency.antt =====
-- Optimistic concurrency of `persist_transition` of services/api/netops_api/application/cases.py.
use netops_copilot.Prelude.{
  ℕ, suc, ◌≡◌, refl, ap, inl, inr, ◌==◌, nat_eq, true, false, Bool-cases, List, [], ◌∷◌, map, arith,
  if◌then◌else◌,
}
use netops_copilot.Prelude.Int.{minus_one}
use netops_copilot.Prelude.Lists.{keep, keep-and, keep-holds}
use netops_copilot.Errors.{version_conflict, ok, err}
use netops_copilot.Domain.Cases.{Actor, TransitionOutcome}
use netops_copilot.Storage.Tables.{CaseRow, Database}
use netops_copilot.Cases.Commands.{CaseRecord}
use netops_copilot.Cases.Statements.{
  CaseUpdate, has_id, is_expected, set_case, select_case, updated_rows, update_rows,
  update_case_version,
}
use netops_copilot.Cases.History.{FreshIds}
use netops_copilot.Cases.Transitions.{
  case_update, get_snapshot, raise_write_conflict, or_write_conflict, persist_transition,
}
use netops_copilot.Cases.Persisted.{persisted, persisted_or_raised}

suc-nat_beq : (n : ℕ) → (suc n == n) ≡ false
suc-nat_beq n = ground arith

module _ (organization_id : ℕ) (u : CaseUpdate) where
  -- What the update makes of a row.
  abbrev swapped : CaseRow → CaseRow
  swapped r = if is_expected organization_id u r then set_case u r else r

  -- The update changes no identity.
  select-update_rows :
      (rows : List CaseRow)
      → keep (has_id organization_id u.case_id) (update_rows organization_id u rows)
        ≡ map swapped (keep (has_id organization_id u.case_id) rows)
  unfolding update_rows
  select-update_rows [] = refl
  select-update_rows (r ∷ rows) = ground (arith, select-update_rows rows)

  -- The row that the update meets, if one row has the identity.
  select-updated_rows :
      (rows : List CaseRow) (row : CaseRow)
      → keep (has_id organization_id u.case_id) rows ≡ row ∷ []
      → updated_rows organization_id u rows
        ≡ (if suc row.version == u.version then set_case u row ∷ [] else [])
  unfolding updated_rows
  select-updated_rows rows row p =
      rw
        (
          keep-and (has_id organization_id u.case_id) (λ (r : CaseRow). suc r.version == u.version)
              rows,
          p,
        )
        (elim (Bool-cases (suc row.version == u.version)) [ inl q ↦ rw q | inr q ↦ rw q ])

  swapped-stale : (row : CaseRow) → (suc row.version == u.version) ≡ false → swapped row ≡ row
  swapped-stale row stale = elim (Bool-cases (has_id organization_id u.case_id row)) [
    | inl q ↦ rw (q, stale)
    | inr q ↦ rw q
  ]

  swapped-fresh :
      (row : CaseRow)
      → has_id organization_id u.case_id row ≡ true
      → (suc row.version == u.version) ≡ true
      → swapped row ≡ set_case u row
  swapped-fresh row found fresh = rw (found, fresh)

module _ (organization_id : ℕ) (ids : FreshIds) (actor : Actor) where
  -- If the one stored row of the case has another version than the one the outcome was computed
  -- from, the transition is refused with a version conflict that reports the stored version, and
  -- the database is as it was.
  pub persist_transition-stale :
      (o : TransitionOutcome) (db : Database) (row : CaseRow)
      → select_case organization_id o.snapshot.case_id db ≡ row ∷ []
      → (suc row.version == o.snapshot.version) ≡ false
      → persist_transition organization_id ids o actor db
        ≡ (err (version_conflict o.snapshot.case_id (minus_one o.snapshot.version) row.version), db)
  unfolding persist_transition or_write_conflict raise_write_conflict update_case_version
      get_snapshot select_case
  persist_transition-stale o db row p stale =
      rw
        (
          select-updated_rows organization_id (case_update organization_id o) db.cases row p,
          stale,
          select-update_rows organization_id (case_update organization_id o) db.cases,
          p,
        )
        (ap
          (λ (r : CaseRow). (
            err (version_conflict o.snapshot.case_id (minus_one o.snapshot.version) r.version),
            db,
          ))
          (swapped-stale organization_id (case_update organization_id o) row stale))

  -- The row that a persisted transition leaves.
  select-persisted :
      (o : TransitionOutcome) (db : Database) (row r : CaseRow)
      → select_case organization_id o.snapshot.case_id db ≡ row ∷ []
      → updated_rows organization_id (case_update organization_id o) db.cases ≡ r ∷ []
      → select_case organization_id o.snapshot.case_id (persisted organization_id ids o actor db)
        ≡ set_case (case_update organization_id o) row ∷ []
  unfolding select_case
  select-persisted o db row r one p =
      let u = case_update organization_id o in
      elim (Bool-cases (suc row.version == o.snapshot.version)) [
        | inl q ↦
            rw
              (
                select-update_rows organization_id u db.cases,
                one,
                swapped-fresh organization_id u row
                    (keep-holds (has_id organization_id o.snapshot.case_id) db.cases row [] one) q,
              )
              refl
        | inr q ↦
            let e = select-updated_rows organization_id u db.cases row one in
            let f = rw q at e in cc (f, p)
      ]

module _ (organization_id : ℕ) (ids : FreshIds) (actor : Actor) where
  -- If one stored row has the case's identity and a transition of the case is persisted, then every
  -- further outcome for that case with the same new version (it was computed from the same
  -- snapshot) is refused by the database after it with a version conflict, and writes nothing.
  pub persist_transition-one_winner :
      (o other : TransitionOutcome) (rival : Actor) (rival_ids : FreshIds)
      → (db after : Database) (row : CaseRow) (result : CaseRecord)
      → select_case organization_id o.snapshot.case_id db ≡ row ∷ []
      → persist_transition organization_id ids o actor db ≡ (ok result, after)
      → other.snapshot.case_id ≡ o.snapshot.case_id
      → other.snapshot.version ≡ o.snapshot.version
      → persist_transition organization_id rival_ids other rival after ≡ (
        err (
            version_conflict other.snapshot.case_id
              (minus_one other.snapshot.version)
              o.snapshot.version),
        after,
      )
  persist_transition-one_winner o other rival rival_ids db after row result one won same_case
        same_version =
      elim (persisted_or_raised organization_id ids o actor db) [
        | inr (e, p) ↦ cc (won, p)
        | inl (r, p, q) ↦
            let same_db : after ≡ persisted organization_id ids o actor db = cc (won, q) in
            persist_transition-stale organization_id rival_ids rival other after
              (set_case (case_update organization_id o) row)
              (rw (same_case, same_db)
                (select-persisted organization_id ids actor o db row r one p))
              (rw same_version (suc-nat_beq o.snapshot.version))
      ]
