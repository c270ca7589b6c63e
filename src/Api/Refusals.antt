-- ===== src/Api/Refusals.antt =====
-- Who changes a case through the routes of services/api/netops_api/api/cases.py.
use netops_copilot.Prelude.{
  ℕ, contains, nat_eq, ◌≡◌, refl, sym, ap, subst, ◌∙◌, ◌⊎◌, inl, inr, true, Bool-cases, Option,
  none, some, [], ◌∷◌, ◌++◌, Option-cases,
}
use netops_copilot.Prelude.Lists.{List-cases}
use netops_copilot.Prelude.Text.{Text}
use netops_copilot.Errors.{Exception, Result, ok, err, ◌>>◌, >>=-eq-ok, Result-cases, traverse}
use netops_copilot.Domain.States.{platform_admin, human, intersects}
use netops_copilot.Domain.Cases.{
  Actor, TransitionCommand, check_actor, check_command, apply_transition,
}
use netops_copilot.Storage.Tables.{CaseRow, Database}
use netops_copilot.Cases.Commands.{CaseRecord, case_record}
use netops_copilot.Cases.Statements.{select_case}
use netops_copilot.Cases.History.{FreshIds}
use netops_copilot.Cases.Transitions.{transition}
use netops_copilot.Cases.Persisted.{
  get_snapshot-cases, persisted_or_raised, row_snapshot, persisted,
}
use netops_copilot.Cases.Detail.{CaseDetail, get_detail, timeline_entry, select_timeline}
use netops_copilot.Api.Principals.{
  AuthenticatedPrincipal, require_any_role, require_case_read_access, require_case_create_access,
  case_create_roles, visible_case_or_not_found, is_visible_to, actor_from_principal,
}
use netops_copilot.Api.Cases.{
  Drawn, TransitionRequest, transition_command, build_command, execute, gated,
  apply_transition_request, map_case_error, mapped,
}

-- `CaseService.transition` returns, or raises and changes nothing.
pub transition-cases :
    (org : ℕ) (ids : FreshIds) (c : TransitionCommand) (db : Database)
    → ((updated : CaseRecord) × (after : Database) × (transition org ids c db
          ≡ (ok updated, after)))
      ⊎ ((e : Exception) × (transition org ids c db ≡ (err e, db)))
unfolding transition
transition-cases org ids c db = elim (get_snapshot-cases org c.case_id db) [
  | inr (e, p) ↦ inr (e, rw p refl)
  | inl (row, only, p) ↦ elim (Result-cases (apply_transition (row_snapshot row) c)) [
    | inr (e, q) ↦ inr (e, rw p (rw q refl))
    | inl (o, q) ↦ elim (persisted_or_raised org ids o c.actor db) [
      | inl (written, r, s) ↦
          inl (case_record written, persisted org ids o c.actor db, rw p (rw q s))
      | inr (e, s) ↦ inr (e, rw p (rw q s))
    ]
  ]
]

create_access-roles :
    (p : AuthenticatedPrincipal)
    → require_case_create_access p ≡ ok tt
    → intersects p.roles (platform_admin ∷ case_create_roles) ≡ true
unfolding require_case_create_access require_any_role
create_access-roles p h =
    elim (Bool-cases (intersects p.roles (platform_admin ∷ case_create_roles))) [
      | inl t ↦ t
      | inr f ↦ absurd (let e = rw f at h in cc e)
    ]

get_detail-row :
    (org id : ℕ) (db : Database) (d : CaseDetail)
    → get_detail org id db ≡ ok d
    → (row : CaseRow) × (select_case org id db ≡ row ∷ []) × (case_record row ≡ d.case)
unfolding get_detail
get_detail-row org id db d h = elim (List-cases (select_case org id db)) [
  | inl p ↦ absurd (let e = rw p at h in cc e)
  | inr (inr (row, next, rest, p)) ↦ absurd (let e = rw p at h in cc e)
  | inr (inl (row, p)) ↦
      let e = rw p at h in
      let (entries, q, r) = >>=-eq-ok (traverse timeline_entry (select_timeline org id db)) _ e in
      (row, p, ap (λ (m : Result CaseDetail). elim m [ ok x ↦ x.case | err _ ↦ case_record row ]) r)
]

visible-asset :
    (case : CaseRecord) (p : AuthenticatedPrincipal) (seen : CaseRecord)
    → visible_case_or_not_found case p ≡ ok seen
    → (case.asset_id ≡ none)
      ⊎ ((a : ℕ) × (case.asset_id ≡ some a) × (contains p.asset_ids a ≡ true))
unfolding visible_case_or_not_found is_visible_to
visible-asset case p seen h = elim (Option-cases case.asset_id) [
  | inl q ↦ inl q
  | inr (a, q) ↦ elim (Bool-cases (contains p.asset_ids a)) [
    | inl t ↦ inr (a, q, t)
    | inr f ↦ absurd (let e = rw q at h in let g = rw f at e in cc g)
  ]
]

-- The actor that acts for the principal.
pub actor-own :
    (uuid5 : Text → ℕ) (p : AuthenticatedPrincipal) (actor : Actor)
    → actor_from_principal uuid5 p ≡ ok actor
    → actor
      ≡ record { actor_id = uuid5 (p.issuer ++ 31 ∷ p.subject); kind = human; roles = p.roles }
unfolding actor_from_principal
actor-own uuid5 p actor h =
    let own : Actor = record {
      actor_id = uuid5 (p.issuer ++ 31 ∷ p.subject);
      kind = human;
      roles = p.roles;
    } in
    elim (Result-cases (check_actor own)) [
      | inr (e, q) ↦ absurd (let g = rw q at h in cc g)
      | inl (u, q) ↦ let g = rw q at h in cc g
    ]

actor-roles :
    (uuid5 : Text → ℕ) (p : AuthenticatedPrincipal) (actor : Actor)
    → actor_from_principal uuid5 p ≡ ok actor
    → (actor.roles ≡ p.roles) × (actor.kind ≡ human)
actor-roles uuid5 p actor h =
    let own = actor-own uuid5 p actor h in
    (ap (λ (a : Actor). a.roles) own, ap (λ (a : Actor). a.kind) own)

module _ (uuid5 : Text → ℕ) (p : AuthenticatedPrincipal) (d : Drawn) (r : TransitionRequest)
    (db : Database) where
  -- What is known of a command that was built.
  built :
      (c : TransitionCommand)
      → build_command uuid5 p d r db ≡ ok c
      → (row : CaseRow) × (select_case p.organization_id r.case_id db ≡ row ∷ [])
        × ((row.asset_id ≡ none)
            ⊎ ((a : ℕ) × (row.asset_id ≡ some a) × (contains p.asset_ids a ≡ true)))
        × (c.case_id ≡ r.case_id)
        × (c.expected_version ≡ r.expected_version)
        × (c.to_state ≡ r.to_state)
        × (c.actor.roles ≡ p.roles)
        × (c.actor.kind ≡ human)
  unfolding build_command
  built c h =
      let (detail, q1, h1) = >>=-eq-ok (get_detail p.organization_id r.case_id db) _ h in
      let (seen, q2, h2) = >>=-eq-ok (visible_case_or_not_found detail.case p) _ h1 in
      let (actor, q3, h3) = >>=-eq-ok (actor_from_principal uuid5 p) _ h2 in
      let (u, q4, h4) = >>=-eq-ok (check_command (transition_command d r actor)) _ h3 in
      let same : transition_command d r actor ≡ c = cc h4 in
      let (row, only, is) = get_detail-row p.organization_id r.case_id db detail q1 in
      let asset : case_record row ≡ detail.case = is in
      let (roles, kind) = actor-roles uuid5 p actor q3 in
      (
        row,
        only,
        subst
            (λ (o : Option ℕ).
              (o ≡ none) ⊎ ((a : ℕ) × (o ≡ some a) × (contains p.asset_ids a ≡ true)))
            (ap (λ (x : CaseRecord). x.asset_id) (sym asset)) (visible-asset detail.case p seen q2),
        ap (λ (x : TransitionCommand). x.case_id) (sym same),
        ap (λ (x : TransitionCommand). x.expected_version) (sym same),
        ap (λ (x : TransitionCommand). x.to_state) (sym same),
        ap (λ (x : TransitionCommand). x.actor.roles) (sym same) ∙ roles,
        ap (λ (x : TransitionCommand). x.actor.kind) (sym same) ∙ kind,
      )

  -- Either the principal has one of the roles that may write cases, the case is the principal's
  -- organization's and has no asset or one of the principal's, and the service made the requested
  -- transition of it for a human actor with the principal's roles; or the route raises and changes
  -- nothing.
  pub apply_transition_request-cases :
      ((c : TransitionCommand) × (updated : CaseRecord) × (after : Database) × (row : CaseRow)
        × (apply_transition_request uuid5 p d r db ≡ (ok updated, after))
        × (transition p.organization_id d.ids c db ≡ (ok updated, after))
        × (intersects p.roles (platform_admin ∷ case_create_roles) ≡ true)
        × (select_case p.organization_id r.case_id db ≡ row ∷ [])
        × ((row.asset_id ≡ none)
            ⊎ ((a : ℕ) × (row.asset_id ≡ some a) × (contains p.asset_ids a ≡ true)))
        × (c.case_id ≡ r.case_id)
        × (c.expected_version ≡ r.expected_version)
        × (c.to_state ≡ r.to_state)
        × (c.actor.roles ≡ p.roles)
        × (c.actor.kind ≡ human))
      ⊎ ((e : Exception) × (apply_transition_request uuid5 p d r db ≡ (err e, db)))
  unfolding apply_transition_request
  apply_transition_request-cases =
      let run = λ (m : Result TransitionCommand). execute p d.ids m in
      elim (Result-cases (require_case_read_access p >> require_case_create_access p)) [
        | inr (e, g) ↦ inr (e, ap (λ m. gated m (run (build_command uuid5 p d r db)) db) g)
        | inl (u, g) ↦
            let open_gate = ap (λ m. gated m (run (build_command uuid5 p d r db)) db) g in
            let (v, read, create) = >>=-eq-ok (require_case_read_access p) _ g in
            elim (Result-cases (build_command uuid5 p d r db)) [
              | inr (e, b) ↦ inr (map_case_error e, open_gate ∙ ap (λ m. run m db) b)
              | inl (c, b) ↦
                  let (row, only, asset, named, version, target, roles, kind) = built c b in
                  elim (transition-cases p.organization_id d.ids c db) [
                    | inr (e, t) ↦ inr (
                      map_case_error e,
                      open_gate
                          ∙ ap (λ m. run m db) b
                          ∙ ap (λ (m : Result CaseRecord × Database). (mapped m.0, m.1)) t,
                    )
                    | inl (updated, after, t) ↦ inl (
                      c,
                      updated,
                      after,
                      row,
                      open_gate
                          ∙ ap (λ m. run m db) b
                          ∙ ap (λ (m : Result CaseRecord × Database). (mapped m.0, m.1)) t,
                      t,
                      create_access-roles p create,
                      only,
                      asset,
                      named,
                      version,
                      target,
                      roles,
                      kind,
                    )
                  ]
            ]
      ]
