-- ===== src/Domain/Examples.antt =====
-- The theorems on services/api/netops_api/domain/cases.py at concrete commands.
use netops_copilot.Prelude.{◌+◌, ◌≡◌, ◌↔◌, refl, none, some, [], ◌∷◌}
use netops_copilot.Prelude.Time.{utc}
use netops_copilot.Errors.{invalid_transition, ok, err}
use netops_copilot.Domain.States.{
  new, fix_proposed, confirmed, resolved, learned, approver, auditor, human, CaseState-discrete,
  ActorKind-discrete, CaseRole-discrete, allowed_transitions, confirm_roles, case_write_roles,
  resolve_roles, intersects,
}
use netops_copilot.Domain.Cases.{
  CaseSnapshot, TransitionCommand, TransitionOutcome, transition_outcome, apply_transition,
  validate_actor, validate_transition_constraints,
}
use netops_copilot.Domain.Permitted.{Permitted}
use netops_copilot.Domain.Decision.{apply_transition-iff_Permitted}
use netops_copilot.Domain.Refusals.{IsRefusedFor, apply_transition-IsRefusedFor}
use netops_copilot.Domain.Lifecycle.{
  Run, start, step, steps, Taken, IsApproval, IsVerification, version-Run, Run-approved,
  Run-verified, Run-learned, command_to,
}

abbrev opened : CaseSnapshot
opened = record { case_id = 1; state = new; version = 0 }

abbrev proposed : CaseSnapshot
proposed = record { case_id = 1; state = fix_proposed; version = 3 }

abbrev approval : TransitionCommand
approval = record {
  transition_id = 20;
  event_id = 21;
  case_id = 1;
  expected_version = 3;
  to_state = confirmed;
  actor = record { actor_id = 5; kind = human; roles = auditor ∷ approver ∷ [] };
  correlation_id = 22;
  occurred_at = record { instant = 1000; tzinfo = utc };
  approval_id = some 23;
  verification_note = none;
  knowledge_item_id = none;
  note = none;
}

abbrev approved : CaseSnapshot
approved = record { case_id = 1; state = confirmed; version = 4 }

approval_accepted : apply_transition proposed approval ≡ ok (transition_outcome proposed approval)
unfolding apply_transition validate_actor validate_transition_constraints CaseState-discrete
    ActorKind-discrete CaseRole-discrete allowed_transitions confirm_roles case_write_roles
    resolve_roles intersects
approval_accepted = refl

abbrev approval_run : Run proposed approved
unfolding transition_outcome
approval_run =
    step start approval (transition_outcome proposed approval) approval_accepted approved refl

abbrev repair : TransitionCommand
repair = command_to approved resolved

abbrev repaired : CaseSnapshot
repaired = record { case_id = 1; state = resolved; version = 5 }

repair_accepted : apply_transition approved repair ≡ ok (transition_outcome approved repair)
unfolding apply_transition validate_actor validate_transition_constraints CaseState-discrete
    ActorKind-discrete CaseRole-discrete allowed_transitions confirm_roles case_write_roles
    resolve_roles intersects
repair_accepted = refl

abbrev repair_run : Run proposed repaired
unfolding transition_outcome
repair_run =
    step approval_run repair (transition_outcome approved repair) repair_accepted repaired refl

apply_transition-iff_Permitted_example :
    ((o : TransitionOutcome) × (apply_transition proposed approval ≡ ok o))
    ↔ Permitted proposed approval
apply_transition-iff_Permitted_example = apply_transition-iff_Permitted proposed approval

early_refused :
    apply_transition opened (command_to opened learned) ≡ err (invalid_transition new learned)
unfolding apply_transition CaseState-discrete allowed_transitions
early_refused = refl

apply_transition-IsRefusedFor_example :
    IsRefusedFor opened (command_to opened learned) (invalid_transition new learned)
apply_transition-IsRefusedFor_example =
    apply_transition-IsRefusedFor opened (command_to opened learned)
      (invalid_transition new learned) early_refused

version-Run_example :
    (repaired.case_id ≡ proposed.case_id) × (repaired.version ≡ proposed.version + steps repair_run)
version-Run_example = version-Run repair_run

Run-approved_example : Taken IsApproval confirmed repair_run
Run-approved_example = Run-approved repair_run (λ h. h) tt

Run-verified_example : Taken IsVerification resolved repair_run
Run-verified_example = Run-verified repair_run (λ h. h) tt

Run-learned_example : (u : CaseSnapshot) × Run opened u × (u.state ≡ learned)
Run-learned_example = Run-learned opened
