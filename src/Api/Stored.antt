-- ===== src/Api/Stored.antt =====
-- What a transition through the routes of services/api/netops_api/api/cases.py leaves in the tables.
use netops_copilot.Prelude.{ℕ, ◌+◌, ◌≡◌, refl, sym, ap, ◌∙◌, inl, inr, List, [], ◌∷◌, ◌++◌, map}
use netops_copilot.Prelude.Text.{Text}
use netops_copilot.Errors.{Exception, Result, ok, err, ◌>>◌, >>=-eq-ok, Result-cases}
use netops_copilot.Domain.States.{human}
use netops_copilot.Domain.Cases.{
  Actor, TransitionCommand, check_command, apply_transition, transition_outcome, TransitionOutcome,
}
use netops_copilot.Domain.Decision.{apply_transition-guards}
use netops_copilot.Storage.Tables.{CaseRow, Database}
use netops_copilot.Cases.Commands.{CaseRecord}
use netops_copilot.Cases.Statements.{CaseUpdate, is_expected, set_case, select_case, updated_rows}
use netops_copilot.Prelude.Lists.{keep}
use netops_copilot.Cases.History.{FreshIds}
use netops_copilot.Cases.Transitions.{transition, persist_transition, case_update}
use netops_copilot.Cases.Persisted.{
  get_snapshot-cases, persisted_or_raised, row_snapshot, persisted,
}
use netops_copilot.Cases.Detail.{get_detail}
use netops_copilot.Api.Principals.{
  AuthenticatedPrincipal, require_case_read_access, require_case_create_access,
  visible_case_or_not_found, actor_from_principal,
}
use netops_copilot.Api.Cases.{
  Drawn, TransitionRequest, transition_command, build_command, execute, gated,
  apply_transition_request, mapped, map_case_error,
}
use netops_copilot.Api.Refusals.{transition-cases, actor-own}

map_one : {A B : Type 0} (f : A → B) (xs : List A) (y : B) → map f xs ≡ y ∷ [] → (x : A) × (y ≡ f x)
map_one f [] y h = cc h
map_one f (x ∷ xs) y h = (x, cc h)

-- The row that an update returns.
updated_rows-one :
    (org : ℕ) (u : CaseUpdate) (rows : List CaseRow) (row : CaseRow)
    → updated_rows org u rows ≡ row ∷ []
    → (row.state ≡ u.state) × (row.version ≡ u.version)
unfolding updated_rows
updated_rows-one org u rows row h =
    let (x, e) = map_one (set_case u) (keep (is_expected org u) rows) row h in
    (ap (λ (r : CaseRow). r.state) e, ap (λ (r : CaseRow). r.version) e)

-- Two results that are both values.
pair_ok :
    {A : Type 0} {a b : A} {s t : Database}
    → ◌≡◌ {A = Result A × Database} (ok a, s) (ok b, t)
    → (a ≡ b) × (s ≡ t)
pair_ok h = (cc h, cc h)

persist_transition-returned :
    (org : ℕ) (ids : FreshIds) (o : TransitionOutcome) (actor : Actor) (db after : Database)
    (updated : CaseRecord)
    → persist_transition org ids o actor db ≡ (ok updated, after)
    → (after ≡ persisted org ids o actor db)
      × (updated.state ≡ o.snapshot.state)
      × (updated.version ≡ o.snapshot.version)
persist_transition-returned org ids o actor db after updated h =
    elim (persisted_or_raised org ids o actor db) [
      | inr (e, s) ↦ absurd (let g = sym s ∙ h in cc g)
      | inl (written, met, s) ↦
          let (back, left) = pair_ok (sym s ∙ h) in
          let (state, version) = updated_rows-one org (case_update org o) db.cases written met in
          (
            sym left,
            ap (λ (x : CaseRecord). x.state) (sym back) ∙ state,
            ap (λ (x : CaseRecord). x.version) (sym back) ∙ version,
          )
    ]

transition-accepted :
    (org : ℕ) (ids : FreshIds) (c : TransitionCommand) (db after : Database) (updated : CaseRecord)
    → transition org ids c db ≡ (ok updated, after)
    → (row : CaseRow) × (select_case org c.case_id db ≡ row ∷ [])
      × (o : TransitionOutcome) × (apply_transition (row_snapshot row) c ≡ ok o)
      × (persist_transition org ids o c.actor db ≡ (ok updated, after))
unfolding transition
transition-accepted org ids c db after updated h = elim (get_snapshot-cases org c.case_id db) [
  | inr (e, p) ↦ absurd (let g = rw p at h in cc g)
  | inl (row, only, p) ↦ elim (Result-cases (apply_transition (row_snapshot row) c)) [
    | inr (e, q) ↦ absurd (let g = rw (p, q) at h in cc g)
    | inl (o, q) ↦ (row, only, o, q, rw (p, q) at h)
  ]
]

-- What `CaseService.transition` leaves when it returns.
transition-returned :
    (org : ℕ) (ids : FreshIds) (c : TransitionCommand) (db after : Database) (updated : CaseRecord)
    → transition org ids c db ≡ (ok updated, after)
    → (row : CaseRow) × (select_case org c.case_id db ≡ row ∷ [])
      × (row.id ≡ c.case_id)
      × (row.version ≡ c.expected_version)
      × (after ≡ persisted org ids (transition_outcome (row_snapshot row) c) c.actor db)
      × (updated.state ≡ c.to_state)
      × (updated.version ≡ row.version + 1)
unfolding transition_outcome
transition-returned org ids c db after updated h =
    let (row, only, o, accepted, stored) = transition-accepted org ids c db after updated h in
    let (same, current, _, _, _, is) = apply_transition-guards (row_snapshot row) c accepted in
    let (left, state, version) =
      persist_transition-returned org ids o c.actor db after updated stored in
    (
      row,
      only,
      same,
      current,
      left ∙ ap (λ (x : TransitionOutcome). persisted org ids x c.actor db) is,
      state ∙ ap (λ (x : TransitionOutcome). x.snapshot.state) is,
      version ∙ ap (λ (x : TransitionOutcome). x.snapshot.version) is,
    )

module _ (uuid5 : Text → ℕ) (p : AuthenticatedPrincipal) (d : Drawn) (r : TransitionRequest)
    (db : Database) where
  abbrev own : Actor
  own = record { actor_id = uuid5 (p.issuer ++ 31 ∷ p.subject); kind = human; roles = p.roles }

  build_command-own :
      (c : TransitionCommand) → build_command uuid5 p d r db ≡ ok c → c ≡ transition_command d r own
  unfolding build_command
  build_command-own c h =
      let (detail, _, h1) = >>=-eq-ok (get_detail p.organization_id r.case_id db) _ h in
      let (seen, _, h2) = >>=-eq-ok (visible_case_or_not_found detail.case p) _ h1 in
      let (actor, q, h3) = >>=-eq-ok (actor_from_principal uuid5 p) _ h2 in
      let (_, _, h4) = >>=-eq-ok (check_command (transition_command d r actor)) _ h3 in
      let built : transition_command d r actor ≡ c = cc h4 in
      sym built ∙ ap (transition_command d r) (actor-own uuid5 p actor q)

  not_returned :
      (e : Exception) {after : Database} {updated : CaseRecord}
      → ◌≡◌ {A = Result CaseRecord × Database} (err (map_case_error e), db) (ok updated, after)
      → ⊥
  not_returned e h = cc h

  executed :
      (m : Result TransitionCommand) (after : Database) (updated : CaseRecord)
      → execute p d.ids m db ≡ (ok updated, after)
      → (c : TransitionCommand) × (m ≡ ok c)
        × (transition p.organization_id d.ids c db ≡ (ok updated, after))
  executed (err e) after updated h = cc h
  executed (ok c) after updated h = elim (transition-cases p.organization_id d.ids c db) [
    | inr (e, t) ↦
        absurd (
          not_returned e (sym (ap (λ (m : Result CaseRecord × Database). (mapped m.0, m.1)) t) ∙ h))
    | inl (u, a, t) ↦
        (c, refl, t ∙ (sym (ap (λ (m : Result CaseRecord × Database). (mapped m.0, m.1)) t) ∙ h))
  ]

  gate :
      (g : Result (Unit {0})) (after : Database) (updated : CaseRecord)
      → gated g (execute p d.ids (build_command uuid5 p d r db)) db ≡ (ok updated, after)
      → execute p d.ids (build_command uuid5 p d r db) db ≡ (ok updated, after)
  gate (ok _) after updated h = h
  gate (err e) after updated h = cc h

  -- The row that is stored, with the case and the version of the request.
  requested_row :
      (row : CaseRow)
      → row.id ≡ r.case_id
      → row.version ≡ r.expected_version
      → (persisted p.organization_id d.ids
          (transition_outcome (row_snapshot row) (transition_command d r own))
          own
          db).case_transitions
        ≡ record {
          id = d.transition_id;
          organization_id = p.organization_id;
          case_id = r.case_id;
          from_state = row.state;
          to_state = r.to_state;
          version = r.expected_version + 1;
          actor_id = uuid5 (p.issuer ++ 31 ∷ p.subject);
          actor_kind = human;
          correlation_id = d.correlation_id;
          approval_id = r.approval_id;
          verification_note = r.verification_note;
          knowledge_item_id = r.knowledge_item_id;
          note = r.note;
          occurred_at = d.occurred_at.instant;
        }
          ∷ db.case_transitions
  unfolding transition_outcome
  requested_row row id version = λ i.
      record {
        id = d.transition_id;
        organization_id = p.organization_id;
        case_id = id i;
        from_state = row.state;
        to_state = r.to_state;
        version = version i + 1;
        actor_id = uuid5 (p.issuer ++ 31 ∷ p.subject);
        actor_kind = human;
        correlation_id = d.correlation_id;
        approval_id = r.approval_id;
        verification_note = r.verification_note;
        knowledge_item_id = r.knowledge_item_id;
        note = r.note;
        occurred_at = d.occurred_at.instant;
      }
      ∷ db.case_transitions

  -- If the route returns, the stored case had the expected version, and exactly one row has been
  -- added to case_transitions. It leads from the stored state to the requested one with the next
  -- version, and holds the approval, the verification note, the knowledge item and the note of the
  -- request as they were given, the drawn identity, correlation and time, and as its human actor
  -- the identity derived from the principal's issuer and subject. The case that is returned has
  -- the requested state and the next version.
  pub apply_transition_request-stored :
      (after : Database) (updated : CaseRecord)
      → apply_transition_request uuid5 p d r db ≡ (ok updated, after)
      → (row : CaseRow) × (select_case p.organization_id r.case_id db ≡ row ∷ [])
        × (row.version ≡ r.expected_version)
        × (after.case_transitions
            ≡ record {
              id = d.transition_id;
              organization_id = p.organization_id;
              case_id = r.case_id;
              from_state = row.state;
              to_state = r.to_state;
              version = r.expected_version + 1;
              actor_id = uuid5 (p.issuer ++ 31 ∷ p.subject);
              actor_kind = human;
              correlation_id = d.correlation_id;
              approval_id = r.approval_id;
              verification_note = r.verification_note;
              knowledge_item_id = r.knowledge_item_id;
              note = r.note;
              occurred_at = d.occurred_at.instant;
            }
              ∷ db.case_transitions)
        × (updated.state ≡ r.to_state)
        × (updated.version ≡ r.expected_version + 1)
  unfolding apply_transition_request
  apply_transition_request-stored after updated h =
      let (c, b, t) =
        executed (build_command uuid5 p d r db) after updated
          (gate (require_case_read_access p >> require_case_create_access p) after updated h) in
      let same = build_command-own c b in
      let t' : transition p.organization_id d.ids (transition_command d r own) db
          ≡ (ok updated, after) =
        rw same at t in
      let (row, only, id, version, stored, state, next) =
        transition-returned p.organization_id d.ids (transition_command d r own) db after updated
          t' in
      (
        row,
        only,
        version,
        ap (λ (x : Database). x.case_transitions) stored ∙ requested_row row id version,
        state,
        next ∙ ap (λ (n : ℕ). n + 1) version,
      )
