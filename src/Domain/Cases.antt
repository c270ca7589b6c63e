-- ===== src/Domain/Cases.antt =====
-- The data classes and `apply_transition` of services/api/netops_api/domain/cases.py.
use Prim.Native.String.{◌++◌ as str_append}
use netops_copilot.Prelude.{
  ℕ, ◌+◌, ◌==◌, nat_eq, contains, String, Bool, true, false, not, ◌&&◌, Option, none, some, List,
  [], ◌∷◌,
}
use netops_copilot.Prelude.Int.{pos}
use netops_copilot.Prelude.Text.{Text, is_blank}
use netops_copilot.Prelude.Time.{Datetime, is_utc}
use netops_copilot.Errors.{
  value_error, case_identity_mismatch, version_conflict, invalid_transition,
  transition_authorization, transition_constraint, Result, ok, ◌>>◌, raise_if,
}
use netops_copilot.Domain.States.{
  CaseState, needs_information, confirmed, resolved, learned, CaseRole, ActorKind, human, service,
  model, case_state_eq, actor_kind_eq, CaseState-discrete, ActorKind-discrete, state_value,
  allowed_transitions, case_write_roles, confirm_roles, resolve_roles, intersects, event_types,
}

pub record Actor : Type 0 where
  pub actor_id : ℕ
  pub kind : ActorKind
  pub roles : List CaseRole

abbrev pub is_nil : List CaseRole → Bool
is_nil [] = true
is_nil (_ ∷ _) = false

-- `Actor.__post_init__`
unfoldable pub check_actor : Actor → Result (Unit {0})
unfolding ActorKind-discrete
check_actor a = do
  raise_if (a.kind == human && is_nil a.roles)
      (value_error "Human actors must include at least one assigned role.")
  raise_if (not (a.kind == human) && not (is_nil a.roles))
      (value_error "Only human actors may carry organization roles.")

-- A version is a natural number: the check for a negative one is in the type.
pub record CaseSnapshot : Type 0 where
  pub case_id : ℕ
  pub state : CaseState
  pub version : ℕ

pub record TransitionCommand : Type 0 where
  pub transition_id : ℕ
  pub event_id : ℕ
  pub case_id : ℕ
  pub expected_version : ℕ
  pub to_state : CaseState
  pub actor : Actor
  pub correlation_id : ℕ
  pub occurred_at : Datetime
  pub approval_id : Option ℕ
  pub verification_note : Option Text
  pub knowledge_item_id : Option ℕ
  pub note : Option Text

-- `value is not None and not value.strip()`
abbrev pub is_blank_text : Option Text → Bool
is_blank_text none = false
is_blank_text (some s) = is_blank s

-- `TransitionCommand.__post_init__` and `_require_utc`
unfoldable pub check_command : TransitionCommand → Result (Unit {0})
check_command c = do
  raise_if (not (is_utc c.occurred_at)) (value_error "occurred_at must be timezone-aware UTC.")
  raise_if (is_blank_text c.verification_note)
      (value_error "verification_note cannot be blank when supplied.")
  raise_if (is_blank_text c.note) (value_error "note cannot be blank when supplied.")

pub record CaseStateTransition : Type 0 where
  pub transition_id : ℕ
  pub case_id : ℕ
  pub from_state : CaseState
  pub to_state : CaseState
  pub version : ℕ
  pub actor_id : ℕ
  pub correlation_id : ℕ
  pub occurred_at : Datetime
  pub approval_id : Option ℕ
  pub verification_note : Option Text
  pub knowledge_item_id : Option ℕ
  pub note : Option Text

pub record CaseEventCommand : Type 0 where
  pub event_id : ℕ
  pub event_type : String
  pub case_id : ℕ
  pub aggregate_version : ℕ
  pub transition_id : ℕ
  pub actor_id : ℕ
  pub correlation_id : ℕ
  pub occurred_at : Datetime

pub record TransitionOutcome : Type 0 where
  pub snapshot : CaseSnapshot
  pub transition : CaseStateTransition
  pub event : CaseEventCommand

abbrev pub is_none {ℓ} : {A : Type ℓ} → Option A → Bool
is_none none = true
is_none (some _) = false

-- `_validate_actor`
unfoldable pub validate_actor : TransitionCommand → Result (Unit {0})
unfolding CaseState-discrete ActorKind-discrete state_value
validate_actor c = do
  raise_if (c.actor.kind == model)
      (transition_authorization "Model identities cannot alter case state.")
  raise_if (contains (confirmed ∷ resolved ∷ []) c.to_state && not (c.actor.kind == human)) (
      transition_authorization (
        str_append (str_append "Transitioning to " (state_value c.to_state))
          " requires an authorized human actor."))
  raise_if (c.to_state == confirmed && not (intersects c.actor.roles confirm_roles))
      (transition_authorization "The actor lacks an approver role for confirmation.")
  raise_if (c.to_state == resolved && not (intersects c.actor.roles resolve_roles))
      (transition_authorization "The actor lacks a case-resolution role.")
  raise_if (c.actor.kind == human && not (intersects c.actor.roles case_write_roles))
      (transition_authorization "The actor has no role that can mutate a case.")
  raise_if (c.to_state == learned && not (c.actor.kind == service)) (
      transition_authorization
        "Transitioning to learned requires the indexing workflow service identity.")

-- `_validate_transition_constraints`
unfoldable pub validate_transition_constraints : TransitionCommand → Result (Unit {0})
unfolding CaseState-discrete
validate_transition_constraints c = do
  raise_if (c.to_state == confirmed && is_none c.approval_id)
      (transition_constraint "Confirmation requires an immutable approval record ID.")
  raise_if (c.to_state == resolved && is_none c.verification_note)
      (transition_constraint "Resolution requires a non-empty human verification note.")
  raise_if (c.to_state == learned && is_none c.knowledge_item_id)
      (transition_constraint "Learning requires an indexed knowledge item ID.")
  raise_if (c.to_state == needs_information && is_none c.note)
      (transition_constraint "Needs-information transitions require an operator-readable note.")

-- The records that the end of `apply_transition` builds.
unfoldable pub transition_outcome : CaseSnapshot → TransitionCommand → TransitionOutcome
transition_outcome s c = record {
  snapshot = record { case_id = s.case_id; state = c.to_state; version = s.version + 1 };
  transition = record {
    transition_id = c.transition_id;
    case_id = s.case_id;
    from_state = s.state;
    to_state = c.to_state;
    version = s.version + 1;
    actor_id = c.actor.actor_id;
    correlation_id = c.correlation_id;
    occurred_at = c.occurred_at;
    approval_id = c.approval_id;
    verification_note = c.verification_note;
    knowledge_item_id = c.knowledge_item_id;
    note = c.note;
  };
  event = record {
    event_id = c.event_id;
    event_type = event_types c.to_state;
    case_id = s.case_id;
    aggregate_version = s.version + 1;
    transition_id = c.transition_id;
    actor_id = c.actor.actor_id;
    correlation_id = c.correlation_id;
    occurred_at = c.occurred_at;
  };
}

unfoldable pub apply_transition : CaseSnapshot → TransitionCommand → Result TransitionOutcome
unfolding CaseState-discrete
apply_transition s c = do
  raise_if (not (s.case_id == c.case_id)) (case_identity_mismatch s.case_id c.case_id)
  raise_if (not (s.version == c.expected_version))
      (version_conflict s.case_id (pos c.expected_version) s.version)
  raise_if (not (contains (allowed_transitions s.state) c.to_state))
      (invalid_transition s.state c.to_state)
  validate_actor c
  validate_transition_constraints c
  ok (transition_outcome s c)
