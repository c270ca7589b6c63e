-- ===== src/Cases/Transitions.antt =====
-- `TenantCaseRepository.get_snapshot` and `persist_transition`, and `CaseService.transition`, of
-- services/api/netops_api/application/cases.py.
use netops_copilot.Prelude.Int.{minus_one}
use netops_copilot.Prelude.{ℕ, nat_eq, list_eq, Option, none, some}
use netops_copilot.Prelude.Text.{codes}
use netops_copilot.Prelude.Json.{Json, str, integer, obj, end, field}
use netops_copilot.Errors.{version_conflict, case_not_found}
use netops_copilot.Exec.{Exec, pure, raise, lift, gets, atomic, or_raise, one_or_none, ◌>>=◌, ◌>>◌}
use netops_copilot.Domain.States.{state_value}
use netops_copilot.Domain.Cases.{
  Actor, CaseSnapshot, CaseStateTransition, TransitionCommand, TransitionOutcome, apply_transition,
}
use netops_copilot.Storage.Tables.{CaseRow, TransitionRow, Database}
use netops_copilot.Storage.Inserts.{insert_transition}
use netops_copilot.Cases.Commands.{uuid_json, CaseRecord, case_record}
use netops_copilot.Cases.Statements.{CaseUpdate, select_case, update_case_version}
use netops_copilot.Cases.History.{FreshIds, insert_event_and_outbox, insert_audit_event}

module _ (organization_id : ℕ) where
  unfoldable pub get_snapshot : ℕ → Exec Database CaseSnapshot
  get_snapshot case_id = do
    rows ← gets (select_case organization_id case_id)
    row ← lift (one_or_none rows)
    found ← or_raise row (case_not_found case_id)
    pure (record { case_id = found.id; state = found.state; version = found.version })

  -- `_raise_write_conflict`
  unfoldable pub raise_write_conflict : CaseSnapshot → Exec Database CaseRow
  raise_write_conflict snapshot = do
    current ← get_snapshot snapshot.case_id
    raise (version_conflict snapshot.case_id (minus_one snapshot.version) current.version)

  -- The row of `_INSERT_TRANSITION`.
  abbrev pub transition_row : CaseStateTransition → Actor → TransitionRow
  transition_row t actor = record {
    id = t.transition_id;
    organization_id = organization_id;
    case_id = t.case_id;
    from_state = t.from_state;
    to_state = t.to_state;
    version = t.version;
    actor_id = t.actor_id;
    actor_kind = actor.kind;
    correlation_id = t.correlation_id;
    approval_id = t.approval_id;
    verification_note = t.verification_note;
    knowledge_item_id = t.knowledge_item_id;
    note = t.note;
    occurred_at = t.occurred_at.instant;
  }

  abbrev pub transition_details : TransitionOutcome → Json
  transition_details o = obj (
      field "case_id" (uuid_json o.snapshot.case_id) (
        field "event_id" (uuid_json o.event.event_id) (
          field "transition_id" (uuid_json o.transition.transition_id) (
            field "event_type" (str (codes o.event.event_type)) (
              field "aggregate_version" (integer o.event.aggregate_version) (
                field "from_state" (str (codes (state_value o.transition.from_state)))
                  (field "to_state" (str (codes (state_value o.transition.to_state))) end)))))))

  -- What `_UPDATE_CASE_VERSION` is given.
  abbrev pub case_update : TransitionOutcome → CaseUpdate
  case_update outcome = record {
    case_id = outcome.snapshot.case_id;
    state = outcome.snapshot.state;
    version = outcome.snapshot.version;
    updated_at = outcome.transition.occurred_at.instant;
  }

  -- `if updated is None: self._raise_write_conflict(...)`
  unfoldable pub or_write_conflict : CaseSnapshot → Option CaseRow → Exec Database CaseRow
  or_write_conflict snapshot none = raise_write_conflict snapshot
  or_write_conflict snapshot (some row) = pure row

  unfoldable pub persist_transition :
      FreshIds → TransitionOutcome → Actor → Exec Database CaseRecord
  unfolding or_write_conflict
  persist_transition ids outcome actor = atomic do
    rows ← update_case_version organization_id (case_update outcome)
    row ← lift (one_or_none rows)
    updated ← or_write_conflict outcome.snapshot row
    insert_transition (transition_row outcome.transition actor)
    insert_event_and_outbox organization_id ids outcome.event (some outcome.event.transition_id)
        none
    insert_audit_event organization_id ids actor "case.transitioned" outcome.event.correlation_id
        outcome.event.occurred_at.instant (transition_details outcome)
    pure (case_record updated)

  -- `CaseService.transition`
  unfoldable pub transition : FreshIds → TransitionCommand → Exec Database CaseRecord
  transition ids command = do
    snapshot ← get_snapshot command.case_id
    outcome ← lift (apply_transition snapshot command)
    persist_transition ids outcome command.actor
