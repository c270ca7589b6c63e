-- ===== src/Domain/Decision.antt =====
-- The decision of `apply_transition` of services/api/netops_api/domain/cases.py.
use netops_copilot.Prelude.{◌≡◌, ◌↔◌, refl, true, contains, arith}
use netops_copilot.Errors.{ok}
use netops_copilot.Domain.States.{allowed_transitions, case_state_eq}
use netops_copilot.Domain.Cases.{
  CaseSnapshot, TransitionCommand, TransitionOutcome, validate_actor,
  validate_transition_constraints, transition_outcome, apply_transition,
}
use netops_copilot.Domain.Permitted.{Permitted}
use netops_copilot.Domain.Guards.{
  allowed→edge, edge→allowed, validate_actor-IsAuthorised, IsAuthorised-validate_actor,
  validate_constraints-HasEvidence, HasEvidence-validate_constraints,
}

module _ (s : CaseSnapshot) (c : TransitionCommand) where
  -- What a success has passed, test by test.
  pub apply_transition-guards :
      {o : TransitionOutcome}
      → apply_transition s c ≡ ok o
      → (s.case_id ≡ c.case_id)
        × (s.version ≡ c.expected_version)
        × (contains (allowed_transitions s.state) c.to_state ≡ true)
        × (validate_actor c ≡ ok tt)
        × (validate_transition_constraints c ≡ ok tt)
        × (o ≡ transition_outcome s c)
  unfolding apply_transition
  apply_transition-guards h = ground arith

  pub apply_transition-Permitted :
      {o : TransitionOutcome} → apply_transition s c ≡ ok o → Permitted s c
  apply_transition-Permitted h =
      let (same, current, edge, actor, evidence, _) = apply_transition-guards h in
      record {
        same_case = same;
        current = current;
        edge = allowed→edge s.state c.to_state edge;
        authorised = validate_actor-IsAuthorised c c.to_state c.actor.kind refl refl actor;
        evidence = validate_constraints-HasEvidence c c.to_state refl evidence;
      }

  pub Permitted-apply_transition :
      Permitted s c → apply_transition s c ≡ ok (transition_outcome s c)
  unfolding apply_transition
  Permitted-apply_transition p = ground (
    arith,
    edge→allowed p.edge,
    IsAuthorised-validate_actor c c.to_state refl p.authorised,
    HasEvidence-validate_constraints c c.to_state refl p.evidence,
  )

  -- A transition succeeds exactly when the command names the snapshot's case and its current
  -- version, the edge is in the diagram, the actor may take it, and the evidence is there.
  pub apply_transition-iff_Permitted :
      ((o : TransitionOutcome) × (apply_transition s c ≡ ok o)) ↔ Permitted s c
  apply_transition-iff_Permitted = (
    λ r. apply_transition-Permitted r.1,
    λ p. (transition_outcome s c, Permitted-apply_transition p),
  )
