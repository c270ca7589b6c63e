-- ===== src/Cases/Statements.antt =====
-- The statements of services/api/netops_api/application/cases.py that read or write `cases`.
use netops_copilot.Prelude.{
  ℕ, suc, ◌==◌, nat_eq, list_eq, contains, Bool, true, not, ◌&&◌, none, some, List, [], ◌∷◌,
  if◌then◌else◌, map,
}
use netops_copilot.Prelude.Lists.{any, keep}
use netops_copilot.Prelude.Text.{Text}
use netops_copilot.Errors.{integrity_error, ok, err}
use netops_copilot.Exec.{Exec}
use netops_copilot.Domain.States.{CaseState}
use netops_copilot.Storage.Tables.{CaseRow, Database}
use netops_copilot.Storage.Checks.{check_case}

abbrev pub has_key : ℕ → Text → CaseRow → Bool
has_key org key r = r.organization_id == org && r.idempotency_key == key

abbrev pub has_id : ℕ → ℕ → CaseRow → Bool
has_id org id r = r.organization_id == org && r.id == id

-- `(organization_id, asset_id)` refers to `assets`, unless it is NULL.
abbrev pub has_asset : Database → CaseRow → Bool
has_asset db r = elim r.asset_id [
  | none ↦ true
  | some a ↦ any (λ (p : ℕ × ℕ). p.0 == r.organization_id && p.1 == a) db.assets
]

-- `_INSERT_CASE`: the rows that it returns. An existing key makes it do nothing.
unfoldable pub insert_case : CaseRow → Exec Database (List CaseRow)
insert_case r db =
    if not (check_case r)
    then (err (integrity_error "ck_cases"), db)
    else if any (has_key r.organization_id r.idempotency_key) db.cases
    then (ok [], db)
    else if any (λ (o : CaseRow). o.id == r.id) db.cases
    then (err (integrity_error "cases_pkey"), db)
    else if not (contains db.organizations r.organization_id)
    then (err (integrity_error "cases_organization_id_fkey"), db)
    else if not (has_asset db r)
    then (err (integrity_error "cases_asset_id_fkey"), db)
    else (ok (r ∷ []), record db { cases = r ∷ db.cases })

-- `_SELECT_CASE_BY_IDEMPOTENCY`
unfoldable pub select_case_by_idempotency : ℕ → Text → Database → List CaseRow
select_case_by_idempotency org key db = keep (has_key org key) db.cases

-- `_SELECT_SNAPSHOT` and `_SELECT_CASE`
unfoldable pub select_case : ℕ → ℕ → Database → List CaseRow
select_case org id db = keep (has_id org id) db.cases

-- What the UPDATE of `_UPDATE_CASE_VERSION` sets.
pub record CaseUpdate : Type 0 where
  pub case_id : ℕ
  pub state : CaseState
  pub version : ℕ
  pub updated_at : ℕ

-- Its WHERE clause: `expected_version` is the new version less one, so no row fits version 0.
abbrev pub is_expected : ℕ → CaseUpdate → CaseRow → Bool
is_expected org u r = has_id org u.case_id r && suc r.version == u.version

abbrev pub set_case : CaseUpdate → CaseRow → CaseRow
set_case u r = record r { state = u.state; version = u.version; updated_at = u.updated_at }

-- `_UPDATE_CASE_VERSION`: the rows that it returns, and the table after it.
unfoldable pub updated_rows : ℕ → CaseUpdate → List CaseRow → List CaseRow
updated_rows org u rows = map (set_case u) (keep (is_expected org u) rows)

unfoldable pub update_rows : ℕ → CaseUpdate → List CaseRow → List CaseRow
update_rows org u [] = []
update_rows org u (r ∷ rows) =
    (if is_expected org u r then set_case u r else r) ∷ update_rows org u rows

unfoldable pub update_case_version : ℕ → CaseUpdate → Exec Database (List CaseRow)
update_case_version org u db =
    (ok (updated_rows org u db.cases), record db { cases = update_rows org u db.cases })
