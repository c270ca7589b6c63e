-- ===== src/Feed/Read.antt =====
-- `TenantCaseEventFeed` of services/api/netops_api/application/event_feed.py.
use netops_copilot.Prelude.{ℕ, String, leb, not, ◌&&◌, Option, none, some, List}
use netops_copilot.Prelude.Int.{ℤ, is_positive, natural}
use netops_copilot.Errors.{
  value_error, event_cursor_not_found, Result, ok, ◌>>=◌, ◌>>◌, raise_if, or_raise, traverse,
}
use netops_copilot.Exec.{one_or_none}
use netops_copilot.Storage.Tables.{EventRow, Database}
use netops_copilot.Feed.Statements.{
  select_initial_page, select_visible_cursor, select_page_after_cursor,
}

pub record CaseFeedEvent : Type 0 where
  pub event_id : ℕ
  pub case_id : ℕ
  pub event_type : String
  pub aggregate_version : ℕ
  pub transition_id : Option ℕ
  pub actor_id : ℕ
  pub correlation_id : ℕ
  pub occurred_at : ℕ

-- `_uuid`: a NULL is `UUID("None")`, which raises.
abbrev pub uuid : Option ℕ → Result ℕ
uuid value = or_raise value (value_error "badly formed hexadecimal UUID string")

-- `_feed_event`
unfoldable pub feed_event : EventRow → Result CaseFeedEvent
feed_event row = uuid row.actor_id >>= λ (actor_id : ℕ). ok (record {
  event_id = row.id;
  case_id = row.case_id;
  event_type = row.event_type;
  aggregate_version = row.aggregate_version;
  transition_id = row.transition_id;
  actor_id = actor_id;
  correlation_id = row.correlation_id;
  occurred_at = row.occurred_at;
})

-- `read_after`: its query
unfoldable pub select_rows : ℕ → Option ℕ → List ℕ → ℕ → Database → Result (List EventRow)
select_rows org none asset_ids limit db = ok (select_initial_page org asset_ids limit db)
select_rows org (some after_event_id) asset_ids limit db =
    one_or_none (select_visible_cursor org asset_ids after_event_id db)
    >>= λ (found : Option EventRow).
        or_raise found (event_cursor_not_found after_event_id) >>= λ (cursor : EventRow).
        ok (select_page_after_cursor org asset_ids (cursor.occurred_at, after_event_id) limit db)

-- `read_after`
unfoldable pub read_after : ℕ → Option ℕ → List ℕ → ℤ → Database → Result (List CaseFeedEvent)
unfolding select_rows
read_after org after_event_id asset_ids limit db =
    raise_if (not (is_positive limit && leb (natural limit) 500))
      (value_error "limit must be between 1 and 500.")
    >> (select_rows org after_event_id asset_ids (natural limit) db >>= traverse feed_event)
