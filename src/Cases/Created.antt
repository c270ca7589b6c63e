-- ===== src/Cases/Created.antt =====
-- The outcomes of `create_case` of services/api/netops_api/application/cases.py.
use netops_copilot.Prelude.{
  Option-cases, if◌then◌else◌, ℕ, ◌≡◌, refl, sym, ap, ◌⊎◌, inl, inr, ◌==◌, list_eq, nat_eq, true,
  false, Bool-cases, List, [], ◌∷◌,
}
use netops_copilot.Prelude.Lists.{List-cases, any, any-keep_nil}
use netops_copilot.Prelude.Text.{Text}
use netops_copilot.Prelude.Json.{Json}
use netops_copilot.Errors.{idempotency_conflict, runtime_error, Result, ok, err}
use netops_copilot.Exec.{settle}
use netops_copilot.Storage.Tables.{CaseRow, Database}
use netops_copilot.Storage.Checks.{check_case}
use netops_copilot.Storage.Laws.{
  unless_broken, settle-Stores, first_broken-whole, first_broken-broken,
}
use netops_copilot.Storage.Inserts.{first_broken}
use netops_copilot.Cases.Commands.{
  CreateCaseCommand, CreateCaseResult, case_record, request_payload,
}
use netops_copilot.Cases.Statements.{has_key, select_case_by_idempotency}
use netops_copilot.Cases.History.{FreshIds}
use netops_copilot.Cases.Creation.{
  case_row, replay_case, create_or_replay, create_case, require_case_by_idempotency,
}
use netops_copilot.Cases.Recorded.{
  case_constraints, insert_case-fresh, insert_case-known, created_database, following, creation,
  creation_constraints, record_creation-Stores,
}

module _ (organization_id : ℕ) where
  pub replay-IsUnchanged :
      (sha : Text) (c : CreateCaseCommand) (db : Database)
      → (replay_case organization_id sha c db).1 ≡ db
  unfolding replay_case require_case_by_idempotency
  replay-IsUnchanged sha c db =
      elim (List-cases (select_case_by_idempotency organization_id c.idempotency_key db)) [
        | inl p ↦ rw p
        | inr (inr (row, next, rest, p)) ↦ rw p
        | inr (inl (row, p)) ↦ elim (Bool-cases (row.request_sha256 == sha)) [
          | inl q ↦ rw (p, q)
          | inr q ↦ rw (p, q)
        ]
      ]

  settle-same : {A : Type 0} (m : Result A × Database) (db : Database) → m.1 ≡ db → settle m db ≡ m
  settle-same (ok a, s) db p = refl
  settle-same (err e, s) db p = ap (λ (d : Database). (err e, d)) (sym p)

  -- What is answered from the one stored case with the key.
  abbrev pub replay_of :
      Text → CreateCaseCommand → CaseRow → Database → Result CreateCaseResult × Database
  replay_of sha c row db =
      if row.request_sha256 == sha
      then (ok (record { case = case_record row; created = false }), db)
      else (err (idempotency_conflict row.id c.case_id), db)

  pub replay_one :
      (sha : Text) (c : CreateCaseCommand) (db : Database) (row : CaseRow)
      → select_case_by_idempotency organization_id c.idempotency_key db ≡ row ∷ []
      → replay_case organization_id sha c db ≡ replay_of sha c row db
  unfolding replay_case require_case_by_idempotency
  replay_one sha c db row only = elim (Bool-cases (row.request_sha256 == sha)) [
    | inl p ↦ rw (only, p) refl
    | inr p ↦ rw (only, p) refl
  ]

  -- A new key.
  create_fresh :
      (digest : Json → Text) (ids : FreshIds) (c : CreateCaseCommand) (db : Database)
      → any (has_key organization_id c.idempotency_key) db.cases ≡ false
      → let sha = digest (request_payload c) in
        create_case organization_id digest ids c db
        ≡ unless_broken
            (first_broken (creation_constraints organization_id sha ids c db))
            (
              ok (creation organization_id sha ids c db),
              created_database organization_id sha ids c db,
            )
            db
  unfolding create_case create_or_replay
  create_fresh digest ids c db fresh =
      let sha = digest (request_payload c) in
      let row = case_row organization_id sha c in
      elim (Option-cases (first_broken (case_constraints row db))) [
        | inl whole ↦
            rw
              (
                insert_case-fresh row db fresh,
                whole,
                first_broken-whole (case_constraints row db)
                    (following organization_id sha ids c db) whole,
              )
              (settle-Stores _ db (record_creation-Stores organization_id sha ids c db))
        | inr (n, broken) ↦
            rw
              (
                insert_case-fresh row db fresh,
                broken,
                first_broken-broken (case_constraints row db)
                    (following organization_id sha ids c db) n broken,
              )
              refl
      ]

  -- A known key is answered by the stored case, unless the command breaks a CHECK constraint.
  create_known :
      (digest : Json → Text) (ids : FreshIds) (c : CreateCaseCommand) (db : Database)
      → any (has_key organization_id c.idempotency_key) db.cases ≡ true
      → let sha = digest (request_payload c) in
        create_case organization_id digest ids c db
        ≡ unless_broken
            (first_broken ((check_case (case_row organization_id sha c), "ck_cases") ∷ []))
            (replay_case organization_id sha c db)
            db
  unfolding create_case create_or_replay
  create_known digest ids c db known =
      let sha = digest (request_payload c) in
      let row = case_row organization_id sha c in
      elim (Bool-cases (check_case row)) [
        | inr p ↦ rw (insert_case-known row db known, p) refl
        | inl p ↦
            rw (insert_case-known row db known, p) (settle-same _ db (replay-IsUnchanged sha c db))
      ]

  found-any :
      (key : Text) (db : Database)
      → select_case_by_idempotency organization_id key db ≡ []
      → any (has_key organization_id key) db.cases ≡ false
  unfolding select_case_by_idempotency
  found-any key db h = any-keep_nil (has_key organization_id key) db.cases h

  replay_many :
      (sha : Text) (c : CreateCaseCommand) (db : Database) (row next : CaseRow)
      (rest : List CaseRow)
      → select_case_by_idempotency organization_id c.idempotency_key db ≡ row ∷ next ∷ rest
      → replay_case organization_id sha c db
        ≡ (err (runtime_error "Multiple rows were found when one or none was required"), db)
  unfolding replay_case require_case_by_idempotency
  replay_many sha c db row next rest many = rw many refl

  -- A key that is new to the organization creates the case and its history, unless a constraint on
  -- the new rows is broken: then the first broken one is raised and the database is as it was. A
  -- known key writes nothing. If the command breaks no CHECK constraint of a case and one row has
  -- the key, the row is returned, not created, for the same fingerprint, and for another the
  -- conflict that names both cases is raised; if several rows have it, that is raised.
  pub create_case-cases :
      (digest : Json → Text) (ids : FreshIds) (c : CreateCaseCommand) (db : Database)
      → let sha = digest (request_payload c) in
        ((any (has_key organization_id c.idempotency_key) db.cases ≡ false)
          × (create_case organization_id digest ids c db
              ≡ unless_broken
                  (first_broken (creation_constraints organization_id sha ids c db))
                  (
                    ok (record {
                      case = case_record (case_row organization_id sha c);
                      created = true;
                    }),
                    created_database organization_id sha ids c db,
                  )
                  db))
        ⊎ ((any (has_key organization_id c.idempotency_key) db.cases ≡ true)
            × (((row : CaseRow) × (select_case_by_idempotency organization_id c.idempotency_key db
                    ≡ row ∷ [])
                  × (create_case organization_id digest ids c db
                      ≡ unless_broken
                          (first_broken
                            ((check_case (case_row organization_id sha c), "ck_cases") ∷ []))
                          (replay_of sha c row db)
                          db))
                ⊎ ((row next : CaseRow) × (rest : List CaseRow) × (select_case_by_idempotency
                        organization_id c.idempotency_key db
                      ≡ row ∷ next ∷ rest)
                    × (create_case organization_id digest ids c db
                        ≡ unless_broken
                            (first_broken
                              ((check_case (case_row organization_id sha c), "ck_cases") ∷ []))
                            (
                              err (
                                  runtime_error
                                    "Multiple rows were found when one or none was required"),
                              db,
                            )
                            db))))
  create_case-cases digest ids c db =
      let sha = digest (request_payload c) in
      elim (Bool-cases (any (has_key organization_id c.idempotency_key) db.cases)) [
        | inr fresh ↦ inl (fresh, create_fresh digest ids c db fresh)
        | inl known ↦ inr (
          known,
          elim (List-cases (select_case_by_idempotency organization_id c.idempotency_key db)) [
            | inl p ↦ absurd (cc (known, found-any c.idempotency_key db p))
            | inr (inl (row, p)) ↦
                inl
                  (row, p, rw (create_known digest ids c db known, replay_one sha c db row p) refl)
            | inr (inr (row, next, rest, p)) ↦ inr (
              row,
              next,
              rest,
              p,
              rw (create_known digest ids c db known, replay_many sha c db row next rest p) refl,
            )
          ],
        )
      ]
