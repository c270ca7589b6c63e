-- ===== src/Api/Cases.antt =====
-- The routes that read and change one case, of services/api/netops_api/api/cases.py.
use netops_copilot.Prelude.{ℕ, Option, none, some}
use netops_copilot.Prelude.Text.{Text}
use netops_copilot.Prelude.Time.{Datetime}
use netops_copilot.Errors.{
  Exception, value_error, case_not_found, idempotency_conflict, version_conflict,
  transition_authorization, invalid_transition, transition_constraint, api_error, Result, ok, err,
  ◌>>=◌, ◌>>◌,
}
use netops_copilot.Exec.{Exec}
use netops_copilot.Domain.States.{CaseState, resolved, needs_information}
use netops_copilot.Domain.Cases.{Actor, TransitionCommand, check_command}
use netops_copilot.Storage.Tables.{Database}
use netops_copilot.Cases.Commands.{CaseRecord}
use netops_copilot.Cases.History.{FreshIds}
use netops_copilot.Cases.Transitions.{transition}
use netops_copilot.Cases.Detail.{CaseDetail, get_detail}
use netops_copilot.Api.Principals.{
  AuthenticatedPrincipal, require_case_read_access, require_case_create_access,
  visible_case_or_not_found, actor_from_principal,
}

-- `_map_case_error`: what it does not name it raises again.
unfoldable pub map_case_error : Exception → Exception
map_case_error (case_not_found _) = api_error 404 "case_not_found"
map_case_error (idempotency_conflict _ _) = api_error 409 "idempotency_conflict"
map_case_error (version_conflict _ _ _) = api_error 409 "case_version_conflict"
map_case_error (transition_authorization _) = api_error 403 "case_transition_forbidden"
map_case_error (invalid_transition _ _) = api_error 422 "invalid_case_transition"
map_case_error (transition_constraint _) = api_error 422 "invalid_case_transition"
map_case_error (value_error _) = api_error 422 "invalid_case_transition"
map_case_error e = e

-- `except ApiError: raise` and `except Exception as exc: raise _map_case_error(exc)`
abbrev pub mapped {ℓ} : {A : Type ℓ} → Result A → Result A
mapped (ok a) = ok a
mapped (err e) = err (map_case_error e)

-- `get_case`: the detail that becomes the response
unfoldable pub get_case : AuthenticatedPrincipal → ℕ → Database → Result CaseDetail
get_case p case_id db =
    require_case_read_access p
    >> mapped (
        get_detail p.organization_id case_id db >>= λ (detail : CaseDetail).
        visible_case_or_not_found detail.case p >>= λ (case : CaseRecord).
        ok (record detail { case = case }))

-- The arguments of `_apply_transition`.
pub record TransitionRequest : Type 0 where
  pub case_id : ℕ
  pub expected_version : ℕ
  pub to_state : CaseState
  pub approval_id : Option ℕ
  pub verification_note : Option Text
  pub knowledge_item_id : Option ℕ
  pub note : Option Text

-- What the route of `resolve_case` and that of `request_case_feedback` pass on.
unfoldable pub resolution : (case_id expected_version : ℕ) → Text → TransitionRequest
resolution case_id expected_version verification_note = record {
  case_id = case_id;
  expected_version = expected_version;
  to_state = resolved;
  approval_id = none;
  verification_note = some verification_note;
  knowledge_item_id = none;
  note = none;
}

unfoldable pub feedback : (case_id expected_version : ℕ) → Text → TransitionRequest
feedback case_id expected_version note = record {
  case_id = case_id;
  expected_version = expected_version;
  to_state = needs_information;
  approval_id = none;
  verification_note = none;
  knowledge_item_id = none;
  note = some note;
}

-- What the server draws for a command: `uuid4()` twice, the correlation and the clock.
pub record Drawn : Type 0 where
  pub transition_id : ℕ
  pub event_id : ℕ
  pub correlation_id : ℕ
  pub occurred_at : Datetime
  pub ids : FreshIds

abbrev pub transition_command : Drawn → TransitionRequest → Actor → TransitionCommand
transition_command d r actor = record {
  transition_id = d.transition_id;
  event_id = d.event_id;
  case_id = r.case_id;
  expected_version = r.expected_version;
  to_state = r.to_state;
  actor = actor;
  correlation_id = d.correlation_id;
  occurred_at = d.occurred_at;
  approval_id = r.approval_id;
  verification_note = r.verification_note;
  knowledge_item_id = r.knowledge_item_id;
  note = r.note;
}

abbrev pub execute :
    AuthenticatedPrincipal → FreshIds → Result TransitionCommand → Exec Database CaseRecord
execute p ids (ok command) db =
    let (result, after) = transition p.organization_id ids command db in (mapped result, after)
execute p ids (err e) db = (err (map_case_error e), db)

-- The two gates of roles, and then the rest.
abbrev pub gated : Result (Unit {0}) → Exec Database CaseRecord → Exec Database CaseRecord
gated (ok _) m db = m db
gated (err e) m db = (err e, db)

module _ (uuid5 : Text → ℕ) where
  -- The command that `_apply_transition` builds once the case is seen.
  unfoldable pub build_command :
      AuthenticatedPrincipal → Drawn → TransitionRequest → Database → Result TransitionCommand
  build_command p d r db = get_detail p.organization_id r.case_id db >>= λ (detail : CaseDetail).
      visible_case_or_not_found detail.case p >>= λ (_ : CaseRecord).
      actor_from_principal uuid5 p >>= λ (actor : Actor).
      check_command (transition_command d r actor) >> ok (transition_command d r actor)

  -- `_apply_transition`
  unfoldable pub apply_transition_request :
      AuthenticatedPrincipal → Drawn → TransitionRequest → Exec Database CaseRecord
  apply_transition_request p d r db =
      gated (require_case_read_access p >> require_case_create_access p)
        (execute p d.ids (build_command p d r db)) db
