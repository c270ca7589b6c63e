-- ===== src/Cases/Listing.antt =====
-- `TenantCaseRepository.list_cases` of services/api/netops_api/application/cases.py and its
-- statement. ILIKE is PostgreSQL's: `ilike text pattern` is a parameter.
use netops_copilot.Prelude.{
  ℕ, String, suc, ltb, leb, ◌==◌, nat_eq, string_eq, contains, Bool, true, false, not, ◌&&◌, ◌||◌,
  Option, none, some, List, [], ◌∷◌, ◌++◌, map, if◌then◌else◌,
}
use netops_copilot.Prelude.Int.{ℤ, is_positive, natural}
use netops_copilot.Prelude.Lists.{length, take, keep}
use netops_copilot.Prelude.Text.{Text, codes, strip, is_blank}
use netops_copilot.Prelude.Uuid.{uuid_text}
use netops_copilot.Errors.{value_error, Result, ok, ◌>>◌, raise_if}
use netops_copilot.Domain.States.{CaseState, case_state_eq}
use netops_copilot.Storage.Tables.{CaseRow, Database}
use netops_copilot.Keyset.Order.{Key, precedes, StrictOrder, descending}
use netops_copilot.Keyset.Sort.{sort}
use netops_copilot.Keyset.Pages.{last}
use netops_copilot.Cases.Commands.{CaseRecord, case_record}

pub record CaseListCursor : Type 0 where
  pub updated_at : ℕ
  pub case_id : ℕ

pub record CaseListPage : Type 0 where
  pub items : List CaseRecord
  pub next_cursor : Option CaseListCursor

-- The arguments of `list_cases`.
pub record CaseListQuery : Type 0 where
  pub asset_ids : List ℕ
  pub limit : ℤ
  pub cursor : Option CaseListCursor
  pub query : Option Text
  pub state : Option CaseState
  pub severity : Option String

-- A parameter that is NULL, or that the column has.
abbrev pub is_null_or {ℓ} : {A : Type ℓ} → (A → Bool) → Option A → Bool
is_null_or p none = true
is_null_or p (some a) = p a

-- `query.strip() if query is not None and query.strip() else None`
unfoldable pub search_text : Option Text → Option Text
search_text none = none
search_text (some q) = if is_blank q then none else some (strip q)

abbrev pub case_key : CaseRow → Key
case_key r = (r.updated_at, r.id)

-- `ORDER BY updated_at DESC, id DESC`
abbrev pub case_order : StrictOrder CaseRow
case_order = descending case_key

-- `(updated_at, id) < (:cursor_updated_at, :cursor_case_id)`, if there is a cursor
abbrev pub is_after_cursor : Option CaseListCursor → CaseRow → Bool
is_after_cursor cursor r =
    is_null_or (λ (c : CaseListCursor). precedes (case_key r) (c.updated_at, c.case_id)) cursor

-- The checks of the arguments.
unfoldable pub check_list_query : CaseListQuery → Result (Unit {0})
check_list_query q =
    raise_if (not (is_positive q.limit && leb (natural q.limit) 100))
      (value_error "limit must be between 1 and 100.")
    >> raise_if (elim q.query [ none ↦ false | some t ↦ ltb 100 (length (strip t)) ])
        (value_error "query must contain at most 100 characters.")
    >> raise_if
        (not (is_null_or (contains ("low" ∷ "medium" ∷ "high" ∷ "critical" ∷ [])) q.severity))
        (value_error "severity must be low, medium, high, or critical.")

-- `items = records[:limit]`, with the cursor of its last record if there are more.
unfoldable pub to_page : ℕ → List CaseRecord → CaseListPage
to_page limit records =
    let items = take limit records in
    record {
      items = items;
      next_cursor =
          if ltb limit (length records)
          then elim (last items) [
            | none ↦ none
            | some r ↦ some (record { updated_at = r.updated_at; case_id = r.case_id })
          ]
          else none;
    }

module _ (ilike : Text → Text → Bool) where
  abbrev contains_text : Text → CaseRow → Bool
  contains_text q r =
      let pattern = codes "%" ++ (q ++ codes "%") in
      ilike r.title pattern
      || ilike (elim r.category [ none ↦ [] | some c ↦ c ]) pattern
      || ilike (uuid_text r.id) pattern

  -- The WHERE clause of `_LIST_CASES` but for the cursor.
  unfoldable pub is_listed : ℕ → CaseListQuery → CaseRow → Bool
  is_listed org q r =
      r.organization_id == org
      && is_null_or (contains q.asset_ids) r.asset_id
      && is_null_or (λ (s : CaseState). r.state == s) q.state
      && is_null_or (λ (s : String). r.severity == s) q.severity
      && is_null_or (λ (t : Text). contains_text t r) (search_text q.query)

  -- `_LIST_CASES`
  unfoldable pub select_cases : ℕ → CaseListQuery → ℕ → Database → List CaseRow
  select_cases org q limit db = take limit (
      sort case_order
        (keep (λ (r : CaseRow). is_listed org q r && is_after_cursor q.cursor r) db.cases))

  -- `list_cases`
  unfoldable pub list_cases : ℕ → CaseListQuery → Database → Result CaseListPage
  unfolding check_list_query
  list_cases org q db =
      let limit = natural q.limit in
      check_list_query q >> ok (to_page limit (map case_record (select_cases org q (suc limit) db)))
