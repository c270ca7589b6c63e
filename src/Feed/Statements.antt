-- ===== src/Feed/Statements.antt =====
-- The statements of services/api/netops_api/application/event_feed.py.
use netops_copilot.Prelude.{ℕ, ◌==◌, nat_eq, contains, Bool, true, ◌&&◌, none, some, List}
use netops_copilot.Prelude.Lists.{any, keep, take}
use netops_copilot.Storage.Tables.{CaseRow, EventRow, Database}
use netops_copilot.Keyset.Order.{Key, precedes, StrictOrder, ascending}
use netops_copilot.Keyset.Sort.{sort}

-- `c.asset_id IS NULL OR c.asset_id = ANY(:asset_ids)`
abbrev pub in_assets : List ℕ → CaseRow → Bool
in_assets asset_ids c = elim c.asset_id [ none ↦ true | some a ↦ contains asset_ids a ]

-- `_VISIBLE_CASES`
abbrev pub is_visible_case : ℕ → List ℕ → CaseRow → Bool
is_visible_case org asset_ids c = c.organization_id == org && in_assets asset_ids c

-- The join of an event with `cases` and the WHERE clause that the three statements share. The pair
-- of columns that is joined on is unique in `cases`, so an event meets one case at most.
unfoldable pub is_visible : ℕ → List ℕ → List CaseRow → EventRow → Bool
is_visible org asset_ids cases e =
    e.organization_id == org
    && any
        (λ (c : CaseRow).
          c.organization_id == e.organization_id
          && c.id == e.case_id
          && is_visible_case org asset_ids c)
        cases

abbrev pub event_key : EventRow → Key
event_key e = (e.occurred_at, e.id)

-- `ORDER BY e.occurred_at ASC, e.id ASC`
abbrev pub feed_order : StrictOrder EventRow
feed_order = ascending event_key

-- `_SELECT_INITIAL_PAGE`
unfoldable pub select_initial_page : ℕ → List ℕ → ℕ → Database → List EventRow
select_initial_page org asset_ids limit db =
    take limit (sort feed_order (keep (is_visible org asset_ids db.cases) db.case_events))

-- `_SELECT_VISIBLE_CURSOR`
unfoldable pub select_visible_cursor : ℕ → List ℕ → ℕ → Database → List EventRow
select_visible_cursor org asset_ids after_event_id db =
    keep (λ (e : EventRow). e.id == after_event_id && is_visible org asset_ids db.cases e)
      db.case_events

-- `_SELECT_PAGE_AFTER_CURSOR`
unfoldable pub select_page_after_cursor : ℕ → List ℕ → Key → ℕ → Database → List EventRow
select_page_after_cursor org asset_ids after limit db = take limit (
    sort feed_order (
      keep (λ (e : EventRow). is_visible org asset_ids db.cases e && precedes after (event_key e))
        db.case_events))
