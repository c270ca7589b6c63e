-- ===== src/Feed/Replay.antt =====
-- A client that reads the feed of services/api/netops_api/application/event_feed.py page by page.
use netops_copilot.Prelude.{
  ℕ, zero, suc, ◌≤◌, ◌<◌, le→leb, nat_eq, ◌≡◌, refl, sym, ap, ◌∙◌, ◌↔◌, inl, inr, true, Option,
  none, some, List, [], ◌∷◌, ◌++◌, arith,
}
use netops_copilot.Prelude.Int.{ℤ, pos}
use netops_copilot.Prelude.Lists.{length, take, drop}
use netops_copilot.Errors.{runtime_error, Result, ok, err, ◌>>=◌, Result-cases, traverse}
use netops_copilot.Storage.Tables.{EventRow, Database}
use netops_copilot.Keyset.Members.{Member}
use netops_copilot.Keyset.Sort.{IsSorted}
use netops_copilot.Keyset.Pages.{last, take-last, take-append-drop, length-drop}
use netops_copilot.Feed.Statements.{is_visible, feed_order, select_initial_page}
use netops_copilot.Feed.Read.{CaseFeedEvent, feed_event, select_rows, read_after}
use netops_copilot.Feed.Conversion.{traverse-append, page-end}
use netops_copilot.Feed.Slices.{HasDistinctIds, feed, feed-IsSorted, Member-feed, rows_after}
use mathlib.Core.List.{append_assoc}

-- After a page that ends in an event, what `next` reads after that event follows.
abbrev pub continue :
    (ℕ → Result (List CaseFeedEvent))
    → List CaseFeedEvent
    → Option CaseFeedEvent
    → Result (List CaseFeedEvent)
continue next page none = ok []
continue next page (some e) = next e.event_id >>= λ (rest : List CaseFeedEvent). ok (page ++ rest)

-- What a client receives that reads a page, reconnects with the identity of its last event, and
-- stops at an empty page. The first argument bounds the number of pages.
unfoldable pub replay : ℕ → ℕ → Option ℕ → List ℕ → ℤ → Database → Result (List CaseFeedEvent)
replay zero org after_event_id asset_ids limit db = err (runtime_error "more pages")
replay (suc pages) org after_event_id asset_ids limit db =
    read_after org after_event_id asset_ids limit db >>= λ (page : List CaseFeedEvent).
    continue (λ id. replay pages org (some id) asset_ids limit db) page (last page)

module _ (org : ℕ) (asset_ids : List ℕ) (db : Database) (distinct : HasDistinctIds db) (k : ℕ) where
  -- What is read before the end of the feed is a page of the rest of it.
  read_rows :
      (after : Option ℕ) (rows : List EventRow)
      → suc k ≤ 500
      → select_rows org after asset_ids (suc k) db ≡ ok rows
      → read_after org after asset_ids (pos (suc k)) db ≡ traverse feed_event rows
  unfolding read_after
  read_rows after rows small h = rw (le→leb (suc k) 500 small, h) refl

  replay-rest :
      (pages : ℕ) (after : Option ℕ) (front rest : List EventRow)
      → suc k ≤ 500
      → feed org asset_ids db distinct ≡ front ++ rest
      → select_rows org after asset_ids (suc k) db ≡ ok (take (suc k) rest)
      → length rest < pages
      → replay pages org after asset_ids (pos (suc k)) db ≡ traverse feed_event rest
  unfolding replay
  replay-rest zero after front rest small split sel enough = absurd (omega (arith, enough))
  replay-rest (suc pages) after front [] small split sel enough =
      rw (read_rows after [] small sel) refl
  replay-rest (suc pages) after front (y ∷ ys) small split sel enough =
      let (part, end, p, q) = take-last k y ys in
      let later = drop (suc k) (y ∷ ys) in
      let page = traverse feed_event (take (suc k) (y ∷ ys)) in
      let whole : traverse feed_event (y ∷ ys) ≡ (
          page >>= λ (a : List CaseFeedEvent).
          traverse feed_event later >>= λ (b : List CaseFeedEvent). ok (a ++ b)) =
        ap (traverse feed_event) (sym (take-append-drop (suc k) (y ∷ ys)))
        ∙ traverse-append feed_event (take (suc k) (y ∷ ys)) later in
      let onward = λ (m : Result (List CaseFeedEvent)). m >>= λ (a : List CaseFeedEvent).
      traverse feed_event later >>= λ (b : List CaseFeedEvent). ok (a ++ b) in
      let read = read_rows after (take (suc k) (y ∷ ys)) small sel in
      elim (Result-cases page) [
        | inr (e, r) ↦ rw (read ∙ r) (sym (whole ∙ ap onward r))
        | inl (vs, r) ↦
            let (v, is_last, same) = page-end part end vs (ap (traverse feed_event) (sym p) ∙ r) in
            let split' : feed org asset_ids db distinct ≡ (front ++ part) ++ end ∷ later =
              split ∙ ap (λ l. front ++ l) q ∙ sym (append_assoc front part (end ∷ later)) in
            let next =
              replay-rest pages (some end.id) ((front ++ part) ++ end ∷ []) later small
                (split' ∙ sym (append_assoc (front ++ part) (end ∷ []) later))
                (rows_after org asset_ids db distinct (front ++ part) end later (suc k) split')
                (omega (arith, length-drop {0} (suc k) (y ∷ ys), enough)) in
            let next' = rw (sym same) at next in
            rw (read ∙ r) (rw is_last (rw next' (sym (whole ∙ ap onward r))))
      ]

-- For a limit between 1 and 500, if no two events have one identity, a client that follows the feed
-- from its start receives, within one more page than there are visible events, the events of a
-- list in strict order of time and identity that holds exactly the visible events, all of them
-- converted, or the exception of a conversion.
pub replay_complete :
    (org : ℕ) (asset_ids : List ℕ) (limit : ℕ) (db : Database)
    → HasDistinctIds db
    → 1 ≤ limit
    → limit ≤ 500
    → (events : List EventRow) × IsSorted feed_order events
      × ((e : EventRow)
          → Member e events
            ↔ (Member e db.case_events × (is_visible org asset_ids db.cases e ≡ true)))
      × (replay (suc (length events)) org none asset_ids (pos limit) db
          ≡ traverse feed_event events)
unfolding select_rows select_initial_page
replay_complete org asset_ids zero db distinct low high = absurd (omega (arith, low))
replay_complete org asset_ids (suc k) db distinct low high = (
  feed org asset_ids db distinct,
  feed-IsSorted org asset_ids db distinct,
  Member-feed org asset_ids db distinct,
  replay-rest org asset_ids db distinct k (suc (length (feed org asset_ids db distinct))) none []
      (feed org asset_ids db distinct) high refl refl (omega arith),
)
