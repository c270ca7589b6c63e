-- ===== src/Cases/Idempotency.antt =====
-- `create_case` under retries, and the history behind the cases that it creates.
use netops_copilot.Prelude.{
  ℕ, ◌≡◌, refl, sym, ap, subst, ◌∙◌, inl, inr, ◌==◌, list_eq, list_beq_iff, nat_eq, Bool, true,
  false, none, some, [], ◌∷◌, arith, if◌then◌else◌, Option-cases, ◌⊎◌, Bool-cases,
}
use mathlib.Core.List.{Memᴰ}
use netops_copilot.Prelude.Lists.{All-map, any, keep, keep-first}
use netops_copilot.Errors.{Exception, idempotency_conflict, Result, ok, err, integrity_error}
use netops_copilot.Domain.States.{new}
use netops_copilot.Storage.Tables.{Database}
use netops_copilot.Cases.Commands.{
  CreateCaseCommand, CreateCaseResult, case_record, request_payload,
}
use netops_copilot.Cases.Statements.{insert_case, has_key, select_case_by_idempotency}
use netops_copilot.Cases.History.{FreshIds, event_row, outbox_row}
use netops_copilot.Cases.Creation.{
  case_row, created_event, replay_case, create_or_replay, create_case,
}
use netops_copilot.Cases.Recorded.{created_database, creation, creation_constraints}
use netops_copilot.Cases.Created.{replay_one, create_case-cases}
use netops_copilot.Cases.Consistency.{
  HasHistory, created, IsConsistent, Extends, HasHistory-Extends,
}
use netops_copilot.Prelude.Text.{Text}
use netops_copilot.Prelude.Json.{Json}
use netops_copilot.Exec.{settle}
use netops_copilot.Storage.Checks.{check_case}
use netops_copilot.Storage.Inserts.{first_broken}

module _ (organization_id : ℕ) where
  -- What follows for a caller: the case is new and stored, or nothing changes and no case is new.
  created_or_unchanged :
      (digest : Json → Text) (ids : FreshIds) (c : CreateCaseCommand) (db : Database)
      → let sha = digest (request_payload c) in
        ((any (has_key organization_id c.idempotency_key) db.cases ≡ false)
          × (create_case organization_id digest ids c db ≡ (
            ok (creation organization_id sha ids c db),
            created_database organization_id sha ids c db,
          )))
        ⊎ ((r : Result CreateCaseResult) × (create_case organization_id digest ids c db ≡ (r, db))
            × ((x : CreateCaseResult) → r ≡ ok x → x.created ≡ false))
  created_or_unchanged digest ids c db =
      let sha = digest (request_payload c) in
      elim (create_case-cases organization_id digest ids c db) [
        | inl (fresh, p) ↦
            elim (Option-cases (first_broken (creation_constraints organization_id sha ids c db))) [
              | inl whole ↦ inl (fresh, rw whole at p)
              | inr (n, broken) ↦ inr (err (integrity_error n), rw broken at p, λ x h. cc h)
            ]
        | inr (_, q) ↦ elim (Bool-cases (check_case (case_row organization_id sha c))) [
          | inr invalid ↦ elim q [
            | inl (row, _, p) ↦ inr (err (integrity_error "ck_cases"), rw invalid at p, λ x h. cc h)
            | inr (row, next, rest, _, p) ↦
                inr (err (integrity_error "ck_cases"), rw invalid at p, λ x h. cc h)
          ]
          | inl valid ↦ elim q [
            | inl (row, _, p) ↦ elim (Bool-cases (row.request_sha256 == sha)) [
              | inl same ↦ inr (
                ok (record { case = case_record row; created = false }),
                rw (valid, same) at p,
                λ x h. ground (arith, h),
              )
              | inr other ↦
                  inr (
                    err (idempotency_conflict row.id c.case_id),
                    rw (valid, other) at p,
                    λ x h. cc h,
                  )
            ]
            | inr (row, next, rest, _, p) ↦ inr (_, rw valid at p, λ x h. cc h)
          ]
        ]
      ]

module _ (organization_id : ℕ) (digest : Json → Text) where
  -- `request_sha256` of a command.
  abbrev pub sha_of : CreateCaseCommand → Text
  sha_of c = digest (request_payload c)

  -- A valid request with a known key is answered by the stored case.
  create_known :
      (ids : FreshIds) (c : CreateCaseCommand) (db : Database)
      → check_case (case_row organization_id (sha_of c) c) ≡ true
      → any (has_key organization_id c.idempotency_key) db.cases ≡ true
      → create_case organization_id digest ids c db
        ≡ settle (replay_case organization_id (sha_of c) c db) db
  unfolding create_case insert_case create_or_replay
  create_known ids c db valid known = rw (valid, known)

  settle-if :
      (b : Bool) (r : CreateCaseResult) (e : Exception) (db : Database)
      → settle (if b then (ok r, db) else (err e, db)) db ≡ (if b then (ok r, db) else (err e, db))
  settle-if true r e db = refl
  settle-if false r e db = refl

  module _ (ids : FreshIds) (c : CreateCaseCommand) (db : Database) (r : CreateCaseResult)
      (db' : Database) (success : create_case organization_id digest ids c db ≡ (ok r, db'))
      (is_new : r.created ≡ true) where
    creation_facts :
        (any (has_key organization_id c.idempotency_key) db.cases ≡ false)
        × (r
            ≡ record { case = case_record (case_row organization_id (sha_of c) c); created = true })
        × (db' ≡ created_database organization_id (sha_of c) ids c db)
    creation_facts = elim (created_or_unchanged organization_id digest ids c db) [
      | inl (fresh, p) ↦ (fresh, cc (success, p), cc (success, p))
      | inr (x, p, old) ↦ absurd (let e = old r (cc (success, p)) in cc (is_new, e))
    ]

    stored_alone :
        (key : Text)
        → key ≡ c.idempotency_key
        → (select_case_by_idempotency organization_id key db'
            ≡ case_row organization_id (sha_of c) c ∷ [])
          × (any (has_key organization_id key) db'.cases ≡ true)
    unfolding select_case_by_idempotency
    stored_alone key same =
        let (fresh, _, e) = creation_facts in
        rw e (
          subst
            (λ (k : Text).
              (keep (has_key organization_id k) (case_row organization_id (sha_of c) c ∷ db.cases)
                ≡ case_row organization_id (sha_of c) c ∷ [])
              × (any (has_key organization_id k) (case_row organization_id (sha_of c) c ∷ db.cases)
                  ≡ true))
            (sym same)
            (keep-first (has_key organization_id c.idempotency_key)
              (case_row organization_id (sha_of c) c) db.cases own_key fresh))
      where
        own_key :
            has_key organization_id c.idempotency_key (case_row organization_id (sha_of c) c) ≡ true
        own_key = ground (arith, list_beq_iff c.idempotency_key c.idempotency_key)

    -- After a creation, any later valid request of the organization with the same idempotency key
    -- writes nothing: with the same fingerprint it is answered by the case that was created, not
    -- created again, and with another it raises the conflict that names both cases.
    pub create_case-retry :
        (ids' : FreshIds) (c' : CreateCaseCommand)
        → c'.idempotency_key ≡ c.idempotency_key
        → check_case (case_row organization_id (sha_of c') c') ≡ true
        → create_case organization_id digest ids' c' db' ≡ (
            if sha_of c == sha_of c'
            then (ok (record { case = r.case; created = false }), db')
            else (err (idempotency_conflict c.case_id c'.case_id), db'))
    create_case-retry ids' c' same valid =
        let (only, known) = stored_alone c'.idempotency_key same in
        create_known ids' c' db' valid known
        ∙ ap (λ (m : Result CreateCaseResult × Database). settle m db')
            (replay_one organization_id (sha_of c') c' db' _ only)
        ∙ settle-if (sha_of c == sha_of c') _ _ db'
        ∙ ap
            (λ (x : CreateCaseResult).
              if sha_of c == sha_of c'
              then (ok (record { case = x.case; created = false }), db')
              else (err (idempotency_conflict c.case_id c'.case_id), db'))
            (sym creation_facts.1)

  new_case-HasHistory :
      (ids : FreshIds) (c : CreateCaseCommand) (db : Database)
      → HasHistory
          (created_database organization_id (sha_of c) ids c db)
          organization_id
          c.case_id
          new
          0
  new_case-HasHistory ids c db =
      let row = case_row organization_id (sha_of c) c in
      let e = created_event organization_id (case_record row) c in
      created
        (record {
          event = event_row organization_id e none (some (sha_of c));
          stored = Memᴰ.head refl;
          event_organization = refl;
          event_case = refl;
          event_transition = refl;
          event_version = refl;
          outbox = outbox_row organization_id ids e none (some (sha_of c));
          queued = Memᴰ.head refl;
          outbox_event = refl;
          outbox_organization = refl;
          outbox_case = refl;
          outbox_version = refl;
          outbox_type = refl;
        })
        refl

  -- From a database where every case stands at the end of its stored history, `create_case` leaves
  -- one, whatever the command and whether it creates, replays or raises.
  pub create_case-IsConsistent :
      (ids : FreshIds) (c : CreateCaseCommand) (db : Database)
      → IsConsistent db
      → IsConsistent (create_case organization_id digest ids c db).1
  create_case-IsConsistent ids c db h =
      elim (created_or_unchanged organization_id digest ids c db) [
        | inl (_, p) ↦
            rw p (
              new_case-HasHistory ids c db,
              All-map (λ r k. HasHistory-Extends extends k) db.cases h,
            )
        | inr (r, p, _) ↦ rw p h
      ]
    where
      extends : Extends db (created_database organization_id (sha_of c) ids c db)
      extends = record {
        transitions = λ t m. m;
        events = λ e m. Memᴰ.tail m;
        outbox_rows = λ x m. Memᴰ.tail m;
      }
