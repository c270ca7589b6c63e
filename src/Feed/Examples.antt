-- ===== src/Feed/Examples.antt =====
-- The feed of services/api/netops_api/application/event_feed.py at concrete rows.
use netops_copilot.Prelude.{ℕ, suc, ◌≡◌, ◌↔◌, true, none, some, List, [], ◌∷◌, arith}
use netops_copilot.Prelude.Int.{pos}
use netops_copilot.Prelude.Lists.{length}
use netops_copilot.Prelude.Text.{codes}
use netops_copilot.Prelude.Json.{null}
use netops_copilot.Domain.States.{new}
use netops_copilot.Errors.{traverse}
use netops_copilot.Storage.Tables.{CaseRow, EventRow, Database}
use netops_copilot.Keyset.Members.{Member}
use netops_copilot.Keyset.Sort.{IsSorted}
use netops_copilot.Feed.Statements.{is_visible, feed_order}
use netops_copilot.Feed.Read.{feed_event, read_after}
use netops_copilot.Feed.Slices.{HasDistinctIds}
use netops_copilot.Feed.Replay.{replay, replay_complete}
use netops_copilot.Feed.Isolation.{visible_part, read_after-visible}

abbrev case_of : ℕ → ℕ → CaseRow
case_of org id = record {
  id = id;
  organization_id = org;
  asset_id = none;
  title = codes "Tunnel down";
  category = none;
  severity = "high";
  state = new;
  version = 0;
  idempotency_key = codes "report-1";
  request_sha256 = [];
  created_by_actor_id = some 5;
  correlation_id = 9;
  created_at = 1000;
  updated_at = 1000;
}

abbrev event_of : ℕ → ℕ → ℕ → EventRow
event_of org id at = record {
  id = id;
  organization_id = org;
  case_id = 100;
  transition_id = none;
  event_type = "case.created";
  aggregate_version = 0;
  actor_id = some 5;
  correlation_id = 9;
  payload = null;
  occurred_at = at;
}

abbrev tables : Database
tables = record {
  organizations = 1 ∷ 2 ∷ [];
  assets = [];
  cases = case_of 1 100 ∷ case_of 2 200 ∷ [];
  case_inputs = [];
  case_transitions = [];
  case_events = event_of 1 12 3000 ∷ event_of 2 11 2000 ∷ event_of 1 10 3000 ∷ [];
  outbox_events = [];
  audit_events = [];
  consumer_inbox = [];
}

tables-HasDistinctIds : HasDistinctIds tables
tables-HasDistinctIds = (
  ((λ p. omega (arith, p)), ((λ p. omega (arith, p)), tt)),
  (((λ p. omega (arith, p)), tt), (tt, tt)),
)

replay_complete_example :
    (events : List EventRow) × IsSorted feed_order events
    × ((e : EventRow)
        → Member e events ↔ (Member e tables.case_events × (is_visible 1 [] tables.cases e ≡ true)))
    × (replay (suc (length events)) 1 none [] (pos 1) tables ≡ traverse feed_event events)
replay_complete_example =
    replay_complete 1 [] 1 tables tables-HasDistinctIds (omega arith) (omega arith)

read_after-visible_example :
    read_after 1 (some 11) [] (pos 1) (visible_part 1 [] tables)
    ≡ read_after 1 (some 11) [] (pos 1) tables
read_after-visible_example = read_after-visible 1 [] tables (some 11) (pos 1)
