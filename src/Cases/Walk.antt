-- ===== src/Cases/Walk.antt =====
-- A client that reads the listing of services/api/netops_api/application/cases.py page by page.
use netops_copilot.Prelude.{
  ℕ, zero, suc, nat_eq, ◌≡◌, sym, ◌↔◌, Bool, true, Option, none, some, List, ◌++◌,
}
use netops_copilot.Prelude.Lists.{keep}
use netops_copilot.Prelude.Text.{Text}
use netops_copilot.Errors.{runtime_error, Result, ok, err, ◌>>=◌}
use netops_copilot.Storage.Tables.{CaseRow, Database}
use netops_copilot.Keyset.Order.{precedes-connected}
use netops_copilot.Keyset.Members.{Member, Pairwise, Pairwise-map, Pairwise-keep, Member-keep}
use netops_copilot.Keyset.Sort.{sort, IsSorted, IsComparable, sort-IsSorted, Member-sort}
use netops_copilot.Cases.Commands.{CaseRecord}
use netops_copilot.Cases.Listing.{
  CaseListCursor, CaseListPage, CaseListQuery, case_key, case_order, check_list_query, is_listed,
  list_cases,
}

-- No two cases have one identity: the primary key of `cases`.
abbrev pub HasDistinctCases : Database → Type 0
HasDistinctCases db = Pairwise (λ (x y : CaseRow). x.id ≡ y.id → ⊥) db.cases

-- What a client receives that reads a page and asks for the next one while there is a cursor. The
-- first argument bounds the number of pages.
module _ (ilike : Text → Text → Bool) where
  abbrev pub go_on :
      (CaseListCursor → Result (List CaseRecord))
      → List CaseRecord
      → Option CaseListCursor
      → Result (List CaseRecord)
  go_on next items none = ok items
  go_on next items (some c) = next c >>= λ (rest : List CaseRecord). ok (items ++ rest)

  unfoldable pub list_all : ℕ → ℕ → CaseListQuery → Database → Result (List CaseRecord)
  list_all zero org q db = err (runtime_error "more pages")
  list_all (suc pages) org q db = list_cases ilike org q db >>= λ (page : CaseListPage).
      go_on (λ c. list_all pages org (record q { cursor = some c }) db) page.items page.next_cursor

module _ (ilike : Text → Text → Bool) (org : ℕ) (q : CaseListQuery) (db : Database)
    (distinct : HasDistinctCases db) where
  abbrev pub listed : CaseRow → Bool
  listed = is_listed ilike org q

  abbrev pub listing : List CaseRow
  listing = sort case_order (keep listed db.cases)

  comparable : Pairwise (IsComparable case_order) db.cases
  comparable =
      Pairwise-map
        (λ (x y : CaseRow) d. precedes-connected (case_key y) (case_key x) (λ e. d (sym e)))
        db.cases distinct

  IsComparable-listed : Pairwise (IsComparable case_order) (keep listed db.cases)
  IsComparable-listed = Pairwise-keep (IsComparable case_order) listed db.cases comparable

  pub listing-IsSorted : IsSorted case_order listing
  listing-IsSorted = sort-IsSorted case_order (keep listed db.cases) IsComparable-listed

  pub Member-listing : (r : CaseRow) → Member r listing ↔ (Member r db.cases × (listed r ≡ true))
  Member-listing r =
      let a = Member-sort case_order r (keep listed db.cases) in
      let b = Member-keep listed r db.cases in ((λ m. b.0 (a.0 m)), (λ m. a.1 (b.1 m)))

module _ (ilike : Text → Text → Bool) (org : ℕ) (q : CaseListQuery) (db : Database)
    (distinct : HasDistinctCases db) (accepted : check_list_query q ≡ ok tt) where
  abbrev at : Option CaseListCursor → CaseListQuery
  at cursor = record q { cursor = cursor }
