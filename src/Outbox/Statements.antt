-- ===== src/Outbox/Statements.antt =====
-- The statements on `outbox_events` of services/api/netops_api/application/outbox.py.
use netops_copilot.Prelude.{
  ℕ, suc, ◌==◌, nat_eq, list_eq, option_eq, string_eq, contains, leb, ltb, Bool, true, not, ◌&&◌,
  ◌||◌, Option, none, some, List, [], ◌∷◌, map, if◌then◌else◌,
}
use netops_copilot.Prelude.Lists.{keep, take}
use netops_copilot.Prelude.Text.{Text}
use netops_copilot.Storage.Tables.{OutboxRow}

-- `ORDER BY available_at ASC, created_at ASC, id ASC`
abbrev pub is_before : OutboxRow → OutboxRow → Bool
is_before a b =
    ltb a.available_at b.available_at
    || (a.available_at == b.available_at
        && (ltb a.created_at b.created_at || (a.created_at == b.created_at && leb a.id b.id)))

abbrev pub insert_ordered : OutboxRow → List OutboxRow → List OutboxRow
insert_ordered r [] = r ∷ []
insert_ordered r (x ∷ xs) =
    let rest = insert_ordered r xs in if is_before r x then r ∷ x ∷ xs else x ∷ rest

abbrev pub ordered : List OutboxRow → List OutboxRow
ordered [] = []
ordered (r ∷ rows) = insert_ordered r (ordered rows)

-- `locked_at IS NULL OR locked_at <= :lease_expired_at`
abbrev pub is_free : ℕ → Option ℕ → Bool
is_free lease_expired_at none = true
is_free lease_expired_at (some at) = leb at lease_expired_at

abbrev pub is_unpublished : OutboxRow → Bool
is_unpublished r = r.published_at == none

-- What `_LEASE_AVAILABLE` is given. `skipped` are the rows that other open transactions have
-- locked: FOR UPDATE SKIP LOCKED passes over them.
pub record LeaseRequest : Type 0 where
  pub organization_id : ℕ
  pub lease_token : Text
  pub now : ℕ
  pub lease_expired_at : ℕ
  pub limit : ℕ
  pub skipped : List ℕ

-- The WHERE clause of the candidates.
abbrev pub is_ready : LeaseRequest → OutboxRow → Bool
is_ready q r =
    r.organization_id == q.organization_id
    && is_unpublished r
    && leb r.available_at q.now
    && is_free q.lease_expired_at r.locked_at
    && not (contains q.skipped r.id)

unfoldable pub candidates : LeaseRequest → List OutboxRow → List OutboxRow
candidates q rows = take q.limit (ordered (keep (is_ready q) rows))

abbrev pub row_id : OutboxRow → ℕ
row_id r = r.id

abbrev pub is_chosen : LeaseRequest → List OutboxRow → OutboxRow → Bool
is_chosen q rows r =
    contains (map row_id (candidates q rows)) r.id && r.organization_id == q.organization_id

-- The SET clause of `_LEASE_AVAILABLE`.
abbrev pub set_lease : LeaseRequest → OutboxRow → OutboxRow
set_lease q r = record r {
  locked_at = some q.now;
  locked_by = some q.lease_token;
  attempt_count = suc r.attempt_count;
}

-- An UPDATE: what it makes of the table, and the rows that it returns.
unfoldable pub update_where :
    (OutboxRow → Bool) → (OutboxRow → OutboxRow) → List OutboxRow → List OutboxRow
update_where test set [] = []
update_where test set (r ∷ rows) = (if test r then set r else r) ∷ update_where test set rows

unfoldable pub returned_where :
    (OutboxRow → Bool) → (OutboxRow → OutboxRow) → List OutboxRow → List OutboxRow
returned_where test set rows = map set (keep test rows)

-- The WHERE clause of `_MARK_PUBLISHED` and of `_SCHEDULE_RETRY`.
abbrev pub is_held : ℕ → ℕ → Text → OutboxRow → Bool
is_held org id token r =
    r.organization_id == org && r.id == id && is_unpublished r && r.locked_by == some token

abbrev pub set_published : ℕ → OutboxRow → OutboxRow
set_published published_at r = record r {
  published_at = some published_at;
  locked_at = none;
  locked_by = none;
  last_error = none;
}

abbrev pub set_retry : ℕ → Text → OutboxRow → OutboxRow
set_retry retry_at error_code r = record r {
  available_at = retry_at;
  locked_at = none;
  locked_by = none;
  last_error = some error_code;
}
