-- ===== src/Domain/Permitted.antt =====
-- What `apply_transition` is meant to decide, stated without its code: which edges there are, who
-- may take them, and what evidence each needs.
use netops_copilot.Prelude.{ℕ, ◌≡◌, ◌⊎◌, some, List, ◌∷◌}
use netops_copilot.Prelude.Text.{Text}
use netops_copilot.Domain.States.{
  CaseState, new, investigating, diagnosed, fix_proposed, needs_information, confirmed, resolved,
  learned, CaseRole, org_admin, operator, approver, platform_admin, human, service,
}
use netops_copilot.Domain.Cases.{Actor, CaseSnapshot, TransitionCommand}

infix 40 ◌⟶◌
pub data ◌⟶◌ : CaseState → CaseState → Type 0 where
  investigate : new ⟶ investigating
  diagnose : investigating ⟶ diagnosed
  ask : investigating ⟶ needs_information
  answer : needs_information ⟶ investigating
  propose : diagnosed ⟶ fix_proposed
  confirm : fix_proposed ⟶ confirmed
  resolve : confirmed ⟶ resolved
  learn : resolved ⟶ learned

pub data MayConfirm : CaseRole → Type 0 where
  org_admin_confirms : MayConfirm org_admin
  approver_confirms : MayConfirm approver
  platform_admin_confirms : MayConfirm platform_admin

pub data MayWrite : CaseRole → Type 0 where
  org_admin_writes : MayWrite org_admin
  operator_writes : MayWrite operator
  approver_writes : MayWrite approver
  platform_admin_writes : MayWrite platform_admin

-- Some role of the list has the power.
pub data Holds (P : CaseRole → Type 0) : List CaseRole → Type 0 where
  here : {r : CaseRole} {rs : List CaseRole} → P r → Holds P (r ∷ rs)
  there : {r : CaseRole} {rs : List CaseRole} → Holds P rs → Holds P (r ∷ rs)

abbrev pub IsHumanWith : (CaseRole → Type 0) → Actor → Type 0
IsHumanWith P a = (a.kind ≡ human) × Holds P a.roles

-- Who may take a case to a state: people approve and resolve, the indexing service learns.
abbrev pub IsAuthorised : CaseState → Actor → Type 0
IsAuthorised confirmed a = IsHumanWith MayConfirm a
IsAuthorised resolved a = IsHumanWith MayWrite a
IsAuthorised learned a = a.kind ≡ service
IsAuthorised _ a = (a.kind ≡ service) ⊎ IsHumanWith MayWrite a

-- What the command must carry to reach a state.
abbrev pub HasEvidence : CaseState → TransitionCommand → Type 0
HasEvidence confirmed c = (i : ℕ) × (c.approval_id ≡ some i)
HasEvidence resolved c = (t : Text) × (c.verification_note ≡ some t)
HasEvidence learned c = (i : ℕ) × (c.knowledge_item_id ≡ some i)
HasEvidence needs_information c = (t : Text) × (c.note ≡ some t)
HasEvidence _ c = Unit

pub record Permitted (s : CaseSnapshot) (c : TransitionCommand) : Type 0 where
  pub same_case : s.case_id ≡ c.case_id
  pub current : s.version ≡ c.expected_version
  pub edge : s.state ⟶ c.to_state
  pub authorised : IsAuthorised c.to_state c.actor
  pub evidence : HasEvidence c.to_state c
