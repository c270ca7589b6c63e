-- ===== src/Domain/Guards.antt =====
-- Each guard of `apply_transition` against what it is meant to test.
use netops_copilot.Prelude.{
  ◌≡◌, ◌↔◌, ◌⊎◌, ◌&&◌, refl, inl, inr, Bool-cases, true, false, not, List, [], ◌∷◌, arith, contains,
  ◌==◌,
}
use netops_copilot.Errors.{ok}
use netops_copilot.Domain.States.{
  CaseState, confirmed, resolved, learned, CaseRole, org_admin, operator, approver, auditor,
  integration_admin, platform_admin, ActorKind, human, service, model, CaseState-discrete,
  CaseRole-discrete, ActorKind-discrete, case_state_eq, case_role_eq, actor_kind_eq,
  allowed_transitions, case_write_roles, confirm_roles, resolve_roles, intersects,
}
use netops_copilot.Domain.Cases.{TransitionCommand, validate_actor, validate_transition_constraints}
use netops_copilot.Domain.Permitted.{
  ◌⟶◌, investigate, diagnose, ask, answer, propose, confirm, resolve, learn, MayConfirm,
  org_admin_confirms, approver_confirms, platform_admin_confirms, MayWrite, org_admin_writes,
  operator_writes, approver_writes, platform_admin_writes, Holds, here, there, IsHumanWith,
  IsAuthorised, HasEvidence,
}

ruleset edges = (investigate, diagnose, ask, answer, propose, confirm, resolve, learn)

-- The table of transitions lists the edges of the diagram.
pub allowed→edge : (s t : CaseState) → contains (allowed_transitions s) t ≡ true → s ⟶ t
unfolding allowed_transitions CaseState-discrete
allowed→edge s t h = grind (arith, edges)

pub edge→allowed : {s t : CaseState} → s ⟶ t → contains (allowed_transitions s) t ≡ true
unfolding allowed_transitions CaseState-discrete
edge→allowed investigate = refl
edge→allowed diagnose = refl
edge→allowed ask = refl
edge→allowed answer = refl
edge→allowed propose = refl
edge→allowed confirm = refl
edge→allowed resolve = refl
edge→allowed learn = refl

abbrev Decides : (CaseRole → Type 0) → List CaseRole → Type 0
Decides P rs = (r : CaseRole) → (contains rs r ≡ true) ↔ P r

confirm_roles-Decides : Decides MayConfirm confirm_roles
unfolding confirm_roles CaseRole-discrete
confirm_roles-Decides org_admin = (λ _. org_admin_confirms, λ _. refl)
confirm_roles-Decides operator = (λ h. cc, elim [ ])
confirm_roles-Decides approver = (λ _. approver_confirms, λ _. refl)
confirm_roles-Decides auditor = (λ h. cc, elim [ ])
confirm_roles-Decides integration_admin = (λ h. cc, elim [ ])
confirm_roles-Decides platform_admin = (λ _. platform_admin_confirms, λ _. refl)

write_roles-Decides : Decides MayWrite case_write_roles
unfolding case_write_roles CaseRole-discrete
write_roles-Decides org_admin = (λ _. org_admin_writes, λ _. refl)
write_roles-Decides operator = (λ _. operator_writes, λ _. refl)
write_roles-Decides approver = (λ _. approver_writes, λ _. refl)
write_roles-Decides auditor = (λ h. cc, elim [ ])
write_roles-Decides integration_admin = (λ h. cc, elim [ ])
write_roles-Decides platform_admin = (λ _. platform_admin_writes, λ _. refl)

resolve_roles-Decides : Decides MayWrite resolve_roles
unfolding resolve_roles case_write_roles
resolve_roles-Decides = write_roles-Decides

module _ {P : CaseRole → Type 0} (allowed : List CaseRole) (d : Decides P allowed) where
  pub intersects→Holds : (roles : List CaseRole) → intersects roles allowed ≡ true → Holds P roles
  unfolding intersects
  intersects→Holds [] h = cc
  intersects→Holds (r ∷ rs) h = elim (Bool-cases (contains allowed r)) [
    | inl yes_r ↦ here ((d r).0 yes_r)
    | inr no_r ↦ there (intersects→Holds rs (ground arith))
  ]

  pub Holds→intersects : {roles : List CaseRole} → Holds P roles → intersects roles allowed ≡ true
  unfolding intersects
  Holds→intersects (here {r = r} p) = rw ((d r).1 p)
  Holds→intersects (there h) = ground (arith, Holds→intersects h)

-- Who may confirm may write.
confirm→write : {rs : List CaseRole} → Holds MayConfirm rs → Holds MayWrite rs
confirm→write (here org_admin_confirms) = here org_admin_writes
confirm→write (here approver_confirms) = here approver_writes
confirm→write (here platform_admin_confirms) = here platform_admin_writes
confirm→write (there h) = there (confirm→write h)

module _ (c : TransitionCommand) where
  confirms : intersects c.actor.roles confirm_roles ≡ true → Holds MayConfirm c.actor.roles
  confirms = intersects→Holds confirm_roles confirm_roles-Decides c.actor.roles

  writes : intersects c.actor.roles case_write_roles ≡ true → Holds MayWrite c.actor.roles
  writes = intersects→Holds case_write_roles write_roles-Decides c.actor.roles

  pub validate_actor-IsAuthorised :
      (t : CaseState) (k : ActorKind)
      → c.to_state ≡ t
      → c.actor.kind ≡ k
      → validate_actor c ≡ ok tt
      → IsAuthorised t c.actor
  unfolding validate_actor
  validate_actor-IsAuthorised confirmed human e f h = (f, confirms (ground arith))
  validate_actor-IsAuthorised resolved human e f h = (f, writes (ground arith))
  validate_actor-IsAuthorised learned service e f h = f
  validate_actor-IsAuthorised confirmed _ e f h = absurd (ground arith)
  validate_actor-IsAuthorised resolved _ e f h = absurd (ground arith)
  validate_actor-IsAuthorised learned _ e f h = absurd (ground arith)
  validate_actor-IsAuthorised _ human e f h = inr (f, writes (ground arith))
  validate_actor-IsAuthorised _ service e f h = inl f
  validate_actor-IsAuthorised _ model e f h = absurd (ground arith)

  writer_passes :
      (c.actor.kind ≡ service) ⊎ IsHumanWith MayWrite c.actor
      → (c.actor.kind == human && not (intersects c.actor.roles case_write_roles)) ≡ false
  unfolding ActorKind-discrete
  writer_passes (inl f) = ground arith
  writer_passes (inr (f, h)) =
      ground (arith, Holds→intersects case_write_roles write_roles-Decides h)

  pub IsAuthorised-validate_actor :
      (t : CaseState) → c.to_state ≡ t → IsAuthorised t c.actor → validate_actor c ≡ ok tt
  unfolding validate_actor
  IsAuthorised-validate_actor confirmed e a = ground (
    arith,
    Holds→intersects confirm_roles confirm_roles-Decides a.1,
    Holds→intersects case_write_roles write_roles-Decides (confirm→write a.1),
  )
  IsAuthorised-validate_actor resolved e a = ground (
    arith,
    Holds→intersects resolve_roles resolve_roles-Decides a.1,
    Holds→intersects case_write_roles write_roles-Decides a.1,
  )
  IsAuthorised-validate_actor learned e a = ground arith
  IsAuthorised-validate_actor _ e a = ground (arith, writer_passes a)

  pub validate_constraints-HasEvidence :
      (t : CaseState) → c.to_state ≡ t → validate_transition_constraints c ≡ ok tt → HasEvidence t c
  unfolding validate_transition_constraints
  validate_constraints-HasEvidence confirmed e h = ground arith
  validate_constraints-HasEvidence _ e h = ground arith

  pub HasEvidence-validate_constraints :
      (t : CaseState) → c.to_state ≡ t → HasEvidence t c → validate_transition_constraints c ≡ ok tt
  unfolding validate_transition_constraints
  HasEvidence-validate_constraints confirmed e h = ground arith
  HasEvidence-validate_constraints _ e h = ground arith
