-- ===== src/Domain/States.antt =====
-- The enumerations and tables of services/api/netops_api/domain/cases.py.
use netops_copilot.Prelude.{Eq, dec_beq, dec_beq_iff, contains, String, Bool, List, [], ◌∷◌}
use netops_copilot.Prelude.Lists.{any}

pub data CaseState : Type 0 where
  new investigating diagnosed fix_proposed needs_information confirmed resolved learned : CaseState

pub data CaseRole : Type 0 where
  org_admin operator approver auditor integration_admin platform_admin : CaseRole

pub data ActorKind : Type 0 where
  human service model : ActorKind

unfoldable pub CaseState-discrete : Discrete CaseState
CaseState-discrete = hlevel

unfoldable pub CaseRole-discrete : Discrete CaseRole
CaseRole-discrete = hlevel

unfoldable pub ActorKind-discrete : Discrete ActorKind
ActorKind-discrete = hlevel

instance abbrev pub case_state_eq : Eq CaseState
unfolding CaseState-discrete
case_state_eq = record {
  beq = dec_beq CaseState-discrete;
  beq_iff = dec_beq_iff CaseState-discrete;
}

instance abbrev pub case_role_eq : Eq CaseRole
unfolding CaseRole-discrete
case_role_eq = record { beq = dec_beq CaseRole-discrete; beq_iff = dec_beq_iff CaseRole-discrete }

instance abbrev pub actor_kind_eq : Eq ActorKind
unfolding ActorKind-discrete
actor_kind_eq = record {
  beq = dec_beq ActorKind-discrete;
  beq_iff = dec_beq_iff ActorKind-discrete;
}

-- `CaseState.value`
unfoldable pub state_value : CaseState → String
state_value new = "new"
state_value investigating = "investigating"
state_value diagnosed = "diagnosed"
state_value fix_proposed = "fix_proposed"
state_value needs_information = "needs_information"
state_value confirmed = "confirmed"
state_value resolved = "resolved"
state_value learned = "learned"

unfoldable pub allowed_transitions : CaseState → List CaseState
allowed_transitions new = investigating ∷ []
allowed_transitions investigating = diagnosed ∷ needs_information ∷ []
allowed_transitions needs_information = investigating ∷ []
allowed_transitions diagnosed = fix_proposed ∷ []
allowed_transitions fix_proposed = confirmed ∷ []
allowed_transitions confirmed = resolved ∷ []
allowed_transitions resolved = learned ∷ []
allowed_transitions learned = []

unfoldable pub case_write_roles : List CaseRole
case_write_roles = org_admin ∷ operator ∷ approver ∷ platform_admin ∷ []

unfoldable pub confirm_roles : List CaseRole
confirm_roles = org_admin ∷ approver ∷ platform_admin ∷ []

unfoldable pub resolve_roles : List CaseRole
resolve_roles = org_admin ∷ operator ∷ approver ∷ platform_admin ∷ []

-- `roles.intersection(allowed)` as a truth value.
unfoldable pub intersects : List CaseRole → List CaseRole → Bool
unfolding CaseRole-discrete
intersects roles allowed = any (contains allowed) roles

unfoldable pub event_types : CaseState → String
event_types investigating = "case.investigating.v1"
event_types diagnosed = "analysis.completed.v1"
event_types fix_proposed = "recommendation.proposed.v1"
event_types needs_information = "case.needs_information.v1"
event_types confirmed = "approval.granted.v1"
event_types resolved = "case.resolved.v1"
event_types learned = "memory.indexed.v1"
event_types new = "case.created.v1"
