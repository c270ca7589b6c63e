-- ===== src/Api/Principals.antt =====
-- `AuthenticatedPrincipal` of services/api/netops_api/core/auth.py, and what
-- services/api/netops_api/api/cases.py asks of it. `uuid5` of the URL name space is a parameter.
use netops_copilot.Prelude.{
  ℕ, contains, nat_eq, Bool, true, not, Option, none, some, List, [], ◌∷◌, ◌++◌,
}
use netops_copilot.Prelude.Text.{Text}
use netops_copilot.Errors.{
  Exception, value_error, authorization_error, api_error, Result, ok, err, ◌>>◌, raise_if,
}
use netops_copilot.Domain.States.{
  CaseRole, org_admin, operator, approver, auditor, integration_admin, platform_admin, human,
  intersects,
}
use netops_copilot.Domain.Cases.{Actor, check_actor}
use netops_copilot.Cases.Commands.{CaseRecord}

pub record AuthenticatedPrincipal : Type 0 where
  pub subject : Text
  pub organization_id : ℕ
  pub roles : List CaseRole
  pub asset_ids : List ℕ
  pub issuer : Text
  pub client_id : Option Text

-- `require_any_role`
unfoldable pub require_any_role : AuthenticatedPrincipal → List CaseRole → Result (Unit {0})
require_any_role p roles =
    raise_if (not (intersects p.roles (platform_admin ∷ roles)))
      (authorization_error "insufficient_role")

-- `require_asset`
unfoldable pub require_asset : AuthenticatedPrincipal → ℕ → Result (Unit {0})
require_asset p asset_id =
    raise_if (not (contains p.asset_ids asset_id)) (authorization_error "asset_scope_denied")

-- `_CASE_CREATE_ROLES` and `_CASE_READ_ROLES`
unfoldable pub case_create_roles : List CaseRole
case_create_roles = org_admin ∷ operator ∷ approver ∷ platform_admin ∷ []

unfoldable pub case_read_roles : List CaseRole
case_read_roles =
    org_admin ∷ operator ∷ approver ∷ auditor ∷ integration_admin ∷ platform_admin ∷ []

-- `try: ... except AuthorizationError: raise e`
abbrev pub unless_denied : Exception → Exception → Exception
unless_denied e (authorization_error _) = e
unless_denied e other = other

abbrev pub denied_as {ℓ} : {A : Type ℓ} → Exception → Result A → Result A
denied_as e (ok a) = ok a
denied_as e (err raised) = err (unless_denied e raised)

-- `_require_case_read_access`
unfoldable pub require_case_read_access : AuthenticatedPrincipal → Result (Unit {0})
require_case_read_access p =
    denied_as (api_error 403 "case_read_forbidden") (require_any_role p case_read_roles)

-- `_require_case_create_access`
unfoldable pub require_case_create_access : AuthenticatedPrincipal → Result (Unit {0})
require_case_create_access p =
    denied_as (api_error 403 "case_write_forbidden") (require_any_role p case_create_roles)

-- `_require_create_asset_scope`
unfoldable pub require_create_asset_scope : AuthenticatedPrincipal → Option ℕ → Result (Unit {0})
require_create_asset_scope p none = ok tt
require_create_asset_scope p (some asset_id) =
    denied_as (api_error 403 "asset_scope_denied") (require_asset p asset_id)

-- `_is_visible_to_principal`
unfoldable pub is_visible_to : AuthenticatedPrincipal → Option ℕ → Bool
is_visible_to p none = true
is_visible_to p (some asset_id) = contains p.asset_ids asset_id

-- `_visible_case_or_not_found`
unfoldable pub visible_case_or_not_found : CaseRecord → AuthenticatedPrincipal → Result CaseRecord
visible_case_or_not_found case p =
    raise_if (not (is_visible_to p case.asset_id)) (api_error 404 "case_not_found") >> ok case

-- `try: ... except ValueError: raise e`
abbrev pub unless_invalid : Exception → Exception → Exception
unless_invalid e (value_error _) = e
unless_invalid e other = other

abbrev pub invalid_as {ℓ} : {A : Type ℓ} → Exception → Result A → Result A
invalid_as e (ok a) = ok a
invalid_as e (err raised) = err (unless_invalid e raised)

module _ (uuid5 : Text → ℕ) where
  -- `_actor_from_principal`
  unfoldable pub actor_from_principal : AuthenticatedPrincipal → Result Actor
  actor_from_principal p =
      let actor : Actor = record {
        actor_id = uuid5 (p.issuer ++ 31 ∷ p.subject);
        kind = human;
        roles = p.roles;
      } in
      invalid_as (api_error 403 "case_write_forbidden") (check_actor actor >> ok actor)
