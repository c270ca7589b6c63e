-- ===== src/Cases/Schema.antt =====
-- The domain of services/api/netops_api/domain/cases.py against the CHECK constraints of
-- services/api/alembic/versions/20260715_02_case_spine.py.
use netops_copilot.Prelude.{
  ℕ, nat_eq, ◌≡◌, ◌⊎◌, refl, ap, true, false, not, Option, none, some, arith, contains, inl, inr,
}
use netops_copilot.Prelude.Lists.{all}
use netops_copilot.Prelude.Text.{Text, is_space, is_blank}
use netops_copilot.Prelude.Trim.{is_empty-trim, all_mono}
use netops_copilot.Errors.{ok}
use netops_copilot.Domain.States.{CaseState, allowed_transitions, case_state_eq}
use netops_copilot.Domain.Cases.{
  CaseSnapshot, TransitionCommand, TransitionOutcome, transition_outcome, check_command,
  apply_transition, validate_actor, validate_transition_constraints, is_blank_text,
}
use netops_copilot.Domain.Decision.{apply_transition-guards}
use netops_copilot.Storage.Checks.{
  is_blank_space, is_filled, is_filled_text, check_edge, check_transition,
}
use netops_copilot.Cases.Transitions.{transition_row}

-- The edges that the table's CHECK allows are those of the domain.
pub check_edge-eq_allowed : (f t : CaseState) → check_edge f t ≡ contains (allowed_transitions f) t
unfolding check_edge allowed_transitions
check_edge-eq_allowed f t = ground arith

-- A text that Python's `strip` leaves non-empty is one that `btrim` leaves non-empty.
is_blank-all : (s : Text) → is_blank s ≡ all is_space s
unfolding is_blank
is_blank-all s = is_empty-trim is_space s

is_filled-all : (s : Text) → is_filled s ≡ not (all is_blank_space s)
unfolding is_filled
is_filled-all s = ap not (is_empty-trim is_blank_space s)

space_is_space : (c : ℕ) → is_blank_space c ≡ true → is_space c ≡ true
unfolding is_space
space_is_space c h = ground arith

is_blank-is_filled : (s : Text) → is_blank s ≡ false → is_filled s ≡ true
is_blank-is_filled s h =
    ground
      (arith, is_blank-all s, is_filled-all s, all_mono is_blank_space is_space s space_is_space)

text_filled :
    (t : Option Text) (s : Text) → t ≡ some s → is_blank_text t ≡ false → is_filled_text t ≡ true
text_filled t s e h = rw e (is_blank-is_filled s (rw e at h))

filled_or_absent :
    (t : Option Text) → is_blank_text t ≡ false → (t ≡ none) ⊎ (is_filled_text t ≡ true)
filled_or_absent none h = inl refl
filled_or_absent (some s) h = inr (is_blank-is_filled s h)

-- Every transition that the domain accepts, from a command that its constructor accepts, is a row
-- that all CHECK constraints of `case_transitions` accept.
pub apply_transition-check :
    (organization_id : ℕ) (s : CaseSnapshot) (c : TransitionCommand) (o : TransitionOutcome)
    → check_command c ≡ ok tt
    → apply_transition s c ≡ ok o
    → check_transition (transition_row organization_id o.transition c.actor) ≡ true
unfolding check_transition check_command validate_actor validate_transition_constraints
    transition_outcome
apply_transition-check organization_id s c o built accepted =
    let (_, _, edge, actor, evidence, e) = apply_transition-guards s c accepted in
    rw e (
      ground (
        arith,
        check_edge-eq_allowed s.state c.to_state,
        filled_or_absent c.verification_note,
        filled_or_absent c.note,
      ))
