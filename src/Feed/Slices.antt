-- ===== src/Feed/Slices.antt =====
-- The pages of the statements as slices of the ordered visible events.
use netops_copilot.Prelude.{
  ℕ, ◌==◌, nat_eq, nat_beq_iff, &&-true, ◌≡◌, refl, sym, ap, ◌∙◌, ◌↔◌, Bool, true, ◌&&◌, some, List,
  [], ◌∷◌, ◌++◌,
}
use netops_copilot.Prelude.Lists.{take, keep, keep-and}
use netops_copilot.Errors.{ok}
use netops_copilot.Storage.Tables.{EventRow, Database}
use netops_copilot.Keyset.Order.{precedes-connected}
use netops_copilot.Keyset.Members.{
  Member, Pairwise, Pairwise-map, Pairwise-keep, Member-keep, keep_unique,
}
use netops_copilot.Keyset.Sort.{sort, IsSorted, IsComparable, sort-IsSorted, keep-sort, Member-sort}
use netops_copilot.Keyset.Pages.{Member-middle, keep-after}
use netops_copilot.Feed.Statements.{
  is_visible, event_key, feed_order, select_visible_cursor, select_page_after_cursor,
}
use netops_copilot.Feed.Read.{select_rows}

-- No two events have one identity: the primary key of `case_events`.
abbrev pub HasDistinctIds : Database → Type 0
HasDistinctIds db = Pairwise (λ (x y : EventRow). x.id ≡ y.id → ⊥) db.case_events

module _ (org : ℕ) (asset_ids : List ℕ) (db : Database) (distinct : HasDistinctIds db) where
  abbrev pub visible : EventRow → Bool
  visible = is_visible org asset_ids db.cases

  -- The visible events in their order.
  abbrev pub feed : List EventRow
  feed = sort feed_order (keep visible db.case_events)

  comparable : Pairwise (IsComparable feed_order) db.case_events
  comparable =
      Pairwise-map (λ (x y : EventRow) d. precedes-connected (event_key x) (event_key y) d)
        db.case_events distinct

  pub feed-IsSorted : IsSorted feed_order feed
  feed-IsSorted =
      sort-IsSorted feed_order (keep visible db.case_events)
        (Pairwise-keep (IsComparable feed_order) visible db.case_events comparable)

  pub Member-feed : (e : EventRow) → Member e feed ↔ (Member e db.case_events × (visible e ≡ true))
  Member-feed e =
      let a = Member-sort feed_order e (keep visible db.case_events) in
      let b = Member-keep visible e db.case_events in ((λ m. b.0 (a.0 m)), (λ m. a.1 (b.1 m)))

  -- The statement for the page after a row is a slice of the feed.
  page_after :
      (x : EventRow) (n : ℕ)
      → select_page_after_cursor org asset_ids (event_key x) n db
        ≡ take n (keep (feed_order.less x) feed)
  unfolding select_page_after_cursor
  page_after x n =
      ap (λ l. take n (sort feed_order l)) (keep-and visible (feed_order.less x) db.case_events)
      ∙ ap (take n) (
          keep-sort feed_order (feed_order.less x) (keep visible db.case_events)
            (Pairwise-keep (IsComparable feed_order) visible db.case_events comparable))

  cursor_found :
      (x : EventRow) → Member x feed → select_visible_cursor org asset_ids x.id db ≡ x ∷ []
  unfolding select_visible_cursor
  cursor_found x m =
      let here = (Member-feed x).0 m in
      keep_unique (λ (e : EventRow). e.id) (λ (e : EventRow). e.id == x.id && visible e) x
        (λ y p. sym ((nat_beq_iff y.id x.id).0 (&&-true (y.id == x.id) (visible y) p).0))
        (rw ((nat_beq_iff x.id x.id).1 refl, here.1) refl) db.case_events distinct here.0

  -- The page after a row of the feed begins with the row that follows it.
  pub rows_after :
      (xs : List EventRow) (x : EventRow) (ys : List EventRow) (n : ℕ)
      → feed ≡ xs ++ x ∷ ys
      → select_rows org (some x.id) asset_ids n db ≡ ok (take n ys)
  unfolding select_rows
  rows_after xs x ys n h =
      let m : Member x feed = rw h (Member-middle xs x ys) in
      let s : IsSorted feed_order (xs ++ x ∷ ys) = rw (sym h) feed-IsSorted in
      rw (cursor_found x m)
        (ap ok (page_after x n ∙ rw h (ap (take n) (keep-after feed_order xs x ys s))))
