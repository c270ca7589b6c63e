-- ===== src/Storage/Inserts.antt =====
-- The INSERT statements as the schema executes them: a row that breaks a CHECK, a key or a
-- reference raises `IntegrityError`, and any other row is added.
use netops_copilot.Prelude.{
  ℕ, ◌==◌, nat_eq, Bool, true, false, not, ◌&&◌, Option, none, some, List, [], ◌∷◌, String,
  contains,
}
use netops_copilot.Prelude.Lists.{any}
use netops_copilot.Errors.{integrity_error, ok, err}
use netops_copilot.Exec.{Exec}
use netops_copilot.Storage.Tables.{
  CaseRow, CaseInputRow, TransitionRow, EventRow, OutboxRow, AuditRow, Database,
}
use netops_copilot.Storage.Checks.{check_case_input, check_transition, check_event, check_outbox}

-- Is there a case `id` of the organization?
abbrev pub has_case : ℕ → ℕ → Database → Bool
has_case org id db = any (λ (r : CaseRow). r.organization_id == org && r.id == id) db.cases

abbrev pub has_transition : ℕ → ℕ → Database → Bool
has_transition org id db =
    any (λ (r : TransitionRow). r.organization_id == org && r.id == id) db.case_transitions

abbrev pub has_event : ℕ → ℕ → Database → Bool
has_event org id db = any (λ (r : EventRow). r.organization_id == org && r.id == id) db.case_events

-- A nullable reference that is NULL refers to nothing.
abbrev pub refers_to : (ℕ → Bool) → Option ℕ → Bool
refers_to p none = true
refers_to p (some i) = p i

-- The name of the first constraint that does not hold.
abbrev pub first_broken : List (Bool × String) → Option String
first_broken [] = none
first_broken ((true, _) ∷ rest) = first_broken rest
first_broken ((false, constraint) ∷ _) = some constraint

-- A statement that writes `next` if all constraints hold, and else raises `IntegrityError`.
unfoldable pub guarded : List (Bool × String) → Database → Exec Database (Unit {0})
guarded constraints next db = elim (first_broken constraints) [
  | none ↦ (ok tt, next)
  | some constraint ↦ (err (integrity_error constraint), db)
]

abbrev pub case_input_constraints : CaseInputRow → Database → List (Bool × String)
case_input_constraints r db =
    (check_case_input r, "ck_case_inputs")
    ∷ (not (any (λ (o : CaseInputRow). o.id == r.id) db.case_inputs), "case_inputs_pkey")
    ∷ (has_case r.organization_id r.case_id db, "case_inputs_case_id_fkey")
    ∷ []

unfoldable pub insert_case_input : CaseInputRow → Exec Database (Unit {0})
insert_case_input r db =
    guarded (case_input_constraints r db) (record db { case_inputs = r ∷ db.case_inputs }) db

abbrev pub transition_constraints : TransitionRow → Database → List (Bool × String)
transition_constraints r db =
    (check_transition r, "ck_case_transitions")
    ∷ (
      (not (any (λ (o : TransitionRow). o.id == r.id) db.case_transitions)),
      "case_transitions_pkey",
    )
    ∷ (
      (not (
          any (λ (o : TransitionRow). o.case_id == r.case_id && o.version == r.version)
            db.case_transitions)),
      "uq_case_transitions_case_version",
    )
    ∷ (has_case r.organization_id r.case_id db, "case_transitions_case_id_fkey")
    ∷ []

unfoldable pub insert_transition : TransitionRow → Exec Database (Unit {0})
insert_transition r db =
    guarded (transition_constraints r db) (record db { case_transitions = r ∷ db.case_transitions })
      db

abbrev same_transition : EventRow → EventRow → Bool
same_transition a b = elim a.transition_id [
  | none ↦ false
  | some i ↦ elim b.transition_id [
    | none ↦ false
    | some j ↦ a.organization_id == b.organization_id && i == j
  ]
]

abbrev pub event_constraints : EventRow → Database → List (Bool × String)
event_constraints r db =
    (check_event r, "ck_case_events")
    ∷ (not (any (λ (o : EventRow). o.id == r.id) db.case_events), "case_events_pkey")
    ∷ (not (any (same_transition r) db.case_events), "uq_case_events_transition_id")
    ∷ (has_case r.organization_id r.case_id db, "case_events_case_id_fkey")
    ∷ (
      (refers_to (λ i. has_transition r.organization_id i db) r.transition_id),
      "case_events_transition_id_fkey",
    )
    ∷ []

unfoldable pub insert_event : EventRow → Exec Database (Unit {0})
insert_event r db =
    guarded (event_constraints r db) (record db { case_events = r ∷ db.case_events }) db

abbrev pub outbox_constraints : OutboxRow → Database → List (Bool × String)
outbox_constraints r db =
    (check_outbox r, "ck_outbox_events")
    ∷ (not (any (λ (o : OutboxRow). o.id == r.id) db.outbox_events), "outbox_events_pkey")
    ∷ (
      (not (any (λ (o : OutboxRow). o.case_event_id == r.case_event_id) db.outbox_events)),
      "uq_outbox_events_case_event",
    )
    ∷ (has_case r.organization_id r.case_id db, "outbox_events_case_id_fkey")
    ∷ (has_event r.organization_id r.case_event_id db, "outbox_events_case_event_id_fkey")
    ∷ []

unfoldable pub insert_outbox : OutboxRow → Exec Database (Unit {0})
insert_outbox r db =
    guarded (outbox_constraints r db) (record db { outbox_events = r ∷ db.outbox_events }) db

abbrev pub audit_constraints : AuditRow → Database → List (Bool × String)
audit_constraints r db =
    (not (any (λ (o : AuditRow). o.id == r.id) db.audit_events), "audit_events_pkey")
    ∷ (contains db.organizations r.organization_id, "audit_events_organization_id_fkey")
    ∷ []

unfoldable pub insert_audit : AuditRow → Exec Database (Unit {0})
insert_audit r db =
    guarded (audit_constraints r db) (record db { audit_events = r ∷ db.audit_events }) db
