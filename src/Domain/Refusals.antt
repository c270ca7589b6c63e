-- ===== src/Domain/Refusals.antt =====
-- The exceptions of `apply_transition` of services/api/netops_api/domain/cases.py.
use netops_copilot.Prelude.{
  ◌≡◌, ◌≢◌, ◌⊎◌, refl, sym, String, true, false, inl, inr, nat_eq, contains, arith,
}
use netops_copilot.Prelude.Int.{pos}
use netops_copilot.Errors.{
  Exception, version_conflict, case_identity_mismatch, invalid_transition, transition_authorization,
  transition_constraint, ok, err,
}
use netops_copilot.Domain.States.{allowed_transitions, case_state_eq}
use netops_copilot.Domain.Cases.{
  CaseSnapshot, TransitionCommand, validate_actor, validate_transition_constraints,
  apply_transition,
}
use netops_copilot.Domain.Permitted.{◌⟶◌, IsAuthorised, HasEvidence}
use netops_copilot.Domain.Guards.{
  allowed→edge, edge→allowed, validate_actor-IsAuthorised, IsAuthorised-validate_actor,
  HasEvidence-validate_constraints,
}

module _ (s : CaseSnapshot) (c : TransitionCommand) where
  abbrev IsCurrent : Type 0
  IsCurrent = (s.case_id ≡ c.case_id) × (s.version ≡ c.expected_version)

  -- What an exception says of a refused command.
  abbrev pub IsRefusedFor : Exception → Type 0
  IsRefusedFor (case_identity_mismatch a b) = (a ≡ s.case_id) × (b ≡ c.case_id) × (a ≢ b)
  IsRefusedFor (version_conflict i e v) =
      (i ≡ s.case_id)
      × (i ≡ c.case_id)
      × (e ≡ pos c.expected_version)
      × (v ≡ s.version)
      × (c.expected_version ≢ v)
  IsRefusedFor (invalid_transition f t) =
      IsCurrent × (f ≡ s.state) × (t ≡ c.to_state) × ¬ (s.state ⟶ c.to_state)
  IsRefusedFor (transition_authorization _) =
      IsCurrent × (s.state ⟶ c.to_state) × ¬ IsAuthorised c.to_state c.actor
  IsRefusedFor (transition_constraint _) =
      IsCurrent
      × (s.state ⟶ c.to_state)
      × IsAuthorised c.to_state c.actor
      × ¬ HasEvidence c.to_state c
  IsRefusedFor _ = ⊥

  -- `_validate_actor` raises only for a lack of authority.
  validate_actor-err :
      (e : Exception) → validate_actor c ≡ err e → (m : String) × (e ≡ transition_authorization m)
  unfolding validate_actor
  validate_actor-err e h = ground arith

  validate_constraints-err :
      (e : Exception)
      → validate_transition_constraints c ≡ err e
      → (m : String) × (e ≡ transition_constraint m)
  unfolding validate_transition_constraints
  validate_constraints-err e h = ground arith

  unauthorised :
      (e : Exception) → IsCurrent → s.state ⟶ c.to_state → validate_actor c ≡ err e → IsRefusedFor e
  unauthorised e now edge h =
      let (m, p) = validate_actor-err e h in
      rw p (now, edge, λ a. cc (h, IsAuthorised-validate_actor c c.to_state refl a))

  unevidenced :
      (e : Exception)
      → IsCurrent
      → s.state ⟶ c.to_state
      → validate_actor c ≡ ok tt
      → validate_transition_constraints c ≡ err e
      → IsRefusedFor e
  unevidenced e now edge actor h =
      let (m, p) = validate_constraints-err e h in
      let a = validate_actor-IsAuthorised c c.to_state c.actor.kind refl refl actor in
      rw p (now, edge, a, λ v. cc (h, HasEvidence-validate_constraints c c.to_state refl v))

  -- The tests of `apply_transition` in their order, up to the one that raised.
  abbrev RefusalOrder : Exception → Type 0
  RefusalOrder e =
      ((s.case_id ≢ c.case_id) × (e ≡ case_identity_mismatch s.case_id c.case_id))
      ⊎ ((s.case_id ≡ c.case_id)
          × (s.version ≢ c.expected_version)
          × (e ≡ version_conflict s.case_id (pos c.expected_version) s.version))
      ⊎ (IsCurrent
          × (contains (allowed_transitions s.state) c.to_state ≡ false)
          × (e ≡ invalid_transition s.state c.to_state))
      ⊎ (IsCurrent
          × (contains (allowed_transitions s.state) c.to_state ≡ true)
          × (validate_actor c ≡ err e))
      ⊎ (IsCurrent
          × (contains (allowed_transitions s.state) c.to_state ≡ true)
          × (validate_actor c ≡ ok tt)
          × (validate_transition_constraints c ≡ err e))

  refusal_order : (e : Exception) → apply_transition s c ≡ err e → RefusalOrder e
  unfolding apply_transition
  refusal_order e h = ground arith

  RefusalOrder-IsRefusedFor : (e : Exception) → RefusalOrder e → IsRefusedFor e
  RefusalOrder-IsRefusedFor e (inl (other, p)) = rw p (refl, refl, other)
  RefusalOrder-IsRefusedFor e (inr (inl (same, stale, p))) =
      rw p (refl, same, refl, refl, λ q. stale (sym q))
  RefusalOrder-IsRefusedFor e (inr (inr (inl (now, off, p)))) =
      rw p (now, refl, refl, λ edge. cc (off, edge→allowed edge))
  RefusalOrder-IsRefusedFor e (inr (inr (inr (inl (now, edge, h))))) =
      unauthorised e now (allowed→edge s.state c.to_state edge) h
  RefusalOrder-IsRefusedFor e (inr (inr (inr (inr (now, edge, actor, h))))) =
      unevidenced e now (allowed→edge s.state c.to_state edge) actor h

  -- Every exception of `apply_transition` is one of five, and names a requirement that fails while
  -- those before it hold: the case, the version, the edge, the authority, the evidence.
  pub apply_transition-IsRefusedFor :
      (e : Exception) → apply_transition s c ≡ err e → IsRefusedFor e
  apply_transition-IsRefusedFor e h = RefusalOrder-IsRefusedFor e (refusal_order e h)
