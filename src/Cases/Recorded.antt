-- ===== src/Cases/Recorded.antt =====
-- The rows that `create_case` adds, and what becomes of their INSERT statements, of services/api/netops_api/application/cases.py.
use netops_copilot.Prelude.{
  Bool, not, ◌++◌, ℕ, ◌≡◌, refl, sym, inl, inr, ◌==◌, list_eq, nat_eq, true, false, Bool-cases,
  Option, none, some, List, [], ◌∷◌, String, contains,
}
use netops_copilot.Prelude.Lists.{any}
use netops_copilot.Prelude.Text.{Text}
use netops_copilot.Errors.{Result, ok}
use netops_copilot.Exec.{Exec, resume}
use netops_copilot.Domain.Cases.{CaseEventCommand}
use netops_copilot.Storage.Tables.{CaseRow, CaseInputRow, Database}
use netops_copilot.Storage.Checks.{check_case}
use netops_copilot.Storage.Laws.{
  unless_broken, Stores, Stores-done, guarded-Stores, guarded-resume-Stores,
}
use netops_copilot.Storage.Inserts.{
  first_broken, insert_case_input, insert_event, insert_outbox, insert_audit,
  case_input_constraints, event_constraints, outbox_constraints, audit_constraints,
}
use netops_copilot.Cases.Commands.{
  CreateCaseCommand, CaseInputCommand, CreateCaseResult, case_record,
}
use netops_copilot.Cases.Statements.{insert_case, has_key, has_asset}
use netops_copilot.Cases.History.{
  FreshIds, event_row, outbox_row, audit_row, insert_audit_event, insert_event_and_outbox,
}
use netops_copilot.Cases.Creation.{
  case_row, created_event, created_details, insert_optional_input, record_creation,
}

-- The constraints on a row with a new key.
abbrev pub case_constraints : CaseRow → Database → List (Bool × String)
case_constraints r db =
    (check_case r, "ck_cases")
    ∷ (not (any (λ (o : CaseRow). o.id == r.id) db.cases), "cases_pkey")
    ∷ (contains db.organizations r.organization_id, "cases_organization_id_fkey")
    ∷ (has_asset db r, "cases_asset_id_fkey")
    ∷ []

-- What the INSERT returns and leaves, if its constraints hold.
abbrev pub inserted : Option String → CaseRow → Database → Result (List CaseRow) × Database
inserted broken r db = unless_broken broken (ok (r ∷ []), record db { cases = r ∷ db.cases }) db

pub insert_case-fresh :
    (r : CaseRow) (db : Database)
    → any (has_key r.organization_id r.idempotency_key) db.cases ≡ false
    → insert_case r db ≡ inserted (first_broken (case_constraints r db)) r db
unfolding insert_case
insert_case-fresh r db fresh = elim (Bool-cases (check_case r)) [
  | inr p ↦ rw p refl
  | inl p ↦ elim (Bool-cases (any (λ (o : CaseRow). o.id == r.id) db.cases)) [
    | inl q ↦ rw (p, fresh, q) refl
    | inr q ↦ elim (Bool-cases (contains db.organizations r.organization_id)) [
      | inr o ↦ rw (p, fresh, q, o) refl
      | inl o ↦ elim (Bool-cases (has_asset db r)) [
        | inl a ↦ rw (p, fresh, q, o, a) refl
        | inr a ↦ rw (p, fresh, q, o, a) refl
      ]
    ]
  ]
]

pub insert_case-known :
    (r : CaseRow) (db : Database)
    → any (has_key r.organization_id r.idempotency_key) db.cases ≡ true
    → insert_case r db
      ≡ unless_broken (first_broken ((check_case r, "ck_cases") ∷ [])) (ok [], db) db
unfolding insert_case
insert_case-known r db known = elim (Bool-cases (check_case r)) [
  | inr p ↦ rw p refl
  | inl p ↦ rw (p, known) refl
]

module _ (organization_id : ℕ) where
  abbrev input_row : CreateCaseCommand → CaseInputCommand → CaseInputRow
  input_row c i = record {
    id = i.input_id;
    organization_id = organization_id;
    case_id = c.case_id;
    input_kind = i.input_kind;
    content_sha256 = i.content_sha256;
    content = i.content;
    created_by_actor_id = some c.actor.actor_id;
    correlation_id = c.correlation_id;
    created_at = c.occurred_at.instant;
  }

  abbrev input_rows :
      CreateCaseCommand → Option CaseInputCommand → List CaseInputRow → List CaseInputRow
  input_rows c none rows = rows
  input_rows c (some i) rows = input_row c i ∷ rows

  -- The tables after the creation of a case.
  abbrev pub created_database : Text → FreshIds → CreateCaseCommand → Database → Database
  created_database sha ids c db =
      let row = case_row organization_id sha c in
      let event = created_event organization_id (case_record row) c in
      record db {
        cases = row ∷ db.cases;
        case_inputs = input_rows c c.case_input db.case_inputs;
        case_events = event_row organization_id event none (some sha) ∷ db.case_events;
        outbox_events = outbox_row organization_id ids event none (some sha) ∷ db.outbox_events;
        audit_events =
            audit_row organization_id ids c.actor "case.created" c.correlation_id
              c.occurred_at.instant (created_details organization_id event)
            ∷ db.audit_events;
      }

  abbrev optional_constraints :
      CreateCaseCommand → Option CaseInputCommand → Database → List (Bool × String)
  optional_constraints c none db = []
  optional_constraints c (some i) db = case_input_constraints (input_row c i) db

  optional-Stores :
      {A : Type 0} {a : A} {after : Database} (c : CreateCaseCommand) (i : Option CaseInputCommand)
      (db next : Database) (rest : List (Bool × String)) (k : Unit {0} → Exec Database A)
      → Stores (first_broken rest) (k tt next) a after
      → next ≡ record db { case_inputs = input_rows c i db.case_inputs }
      → Stores
          (first_broken (optional_constraints c i db ++ rest))
          (resume (insert_optional_input organization_id c.case_id c i db) k)
          a
          after
  unfolding insert_optional_input insert_case_input
  optional-Stores c none db next rest k h same = rw (sym same) h
  optional-Stores c (some i) db next rest k h same = guarded-Stores _ _ rest _ k (rw (sym same) h)

  module _ (sha : Text) (ids : FreshIds) (c : CreateCaseCommand) (db : Database) where
    abbrev new_row : CaseRow
    new_row = case_row organization_id sha c

    abbrev event : CaseEventCommand
    event = created_event organization_id (case_record new_row) c

    abbrev with_case : Database
    with_case = record db { cases = new_row ∷ db.cases }

    abbrev with_input : Database
    with_input = record with_case { case_inputs = input_rows c c.case_input db.case_inputs }

    abbrev with_case_event : Database
    with_case_event = record with_input {
      case_events = event_row organization_id event none (some sha) ∷ db.case_events;
    }

    abbrev with_event : Database
    with_event = record with_input {
      case_events = event_row organization_id event none (some sha) ∷ db.case_events;
      outbox_events = outbox_row organization_id ids event none (some sha) ∷ db.outbox_events;
    }

    abbrev pub creation : CreateCaseResult
    creation = record { case = case_record new_row; created = true }

    abbrev audited : List (Bool × String)
    audited =
        audit_constraints
          (audit_row organization_id ids c.actor "case.created" c.correlation_id
            c.occurred_at.instant (created_details organization_id event))
          with_event
        ++ []

    abbrev outbox_on : List (Bool × String)
    outbox_on =
        outbox_constraints (outbox_row organization_id ids event none (some sha)) with_case_event
        ++ audited

    abbrev events_on : List (Bool × String)
    events_on =
        event_constraints (event_row organization_id event none (some sha)) with_input ++ outbox_on

    -- The constraints on the rows that follow the case.
    abbrev pub following : List (Bool × String)
    following = optional_constraints c c.case_input with_case ++ events_on

    -- The constraints on all new rows.
    abbrev pub creation_constraints : List (Bool × String)
    creation_constraints = case_constraints new_row db ++ following

    pub record_creation-Stores :
        Stores
          (first_broken following)
          (record_creation organization_id sha ids c new_row with_case)
          creation
          (created_database sha ids c db)
    unfolding record_creation insert_event_and_outbox insert_event insert_outbox insert_audit_event
        insert_audit
    record_creation-Stores =
        optional-Stores c c.case_input with_case with_input events_on _
          (guarded-resume-Stores _ _ outbox_on _ _ _
            (guarded-Stores _ _ audited _ _ (guarded-Stores _ _ [] _ _ (Stores-done refl))))
          refl
