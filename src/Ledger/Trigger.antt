-- ===== src/Ledger/Trigger.antt =====
-- The trigger `netops_validate_artifact_processing_event` and the INSERT statement of
-- services/api/alembic/versions/20260716_05_artifact_processing_ledger.py.
use netops_copilot.Prelude.{
  ℕ, suc, ltb, ◌==◌, nat_eq, option_eq, Bool, false, not, ◌&&◌, ◌||◌, Option, none, some, List, [],
  ◌∷◌, if◌then◌else◌,
}
use netops_copilot.Prelude.Lists.{any, keep}
use netops_copilot.Errors.{integrity_error, raised_by_trigger, Result, ok, err, ◌>>◌, raise_if}
use netops_copilot.Exec.{Exec}
use netops_copilot.Keyset.Order.{Key, StrictOrder, descending}
use netops_copilot.Keyset.Sort.{sort}
use netops_copilot.Ledger.Tables.{
  ProcessingState, quarantined, verified, redacted, failed, ProcessingState-discrete,
  processing_state_eq, ProcessingRow, Ledger, check_processing_event,
}

-- The rows of an artifact: those that row-level security shows to its organization.
abbrev pub is_of : ℕ → ℕ → ProcessingRow → Bool
is_of org artifact_id r = r.organization_id == org && r.artifact_id == artifact_id

-- `SELECT max(attempt)`
unfoldable pub highest_attempt : List ProcessingRow → Option ℕ
highest_attempt [] = none
highest_attempt (r ∷ rows) = elim (highest_attempt rows) [
  | none ↦ some r.attempt
  | some n ↦ some (if ltb n r.attempt then r.attempt else n)
]

abbrev pub recency : ProcessingRow → Key
recency r = (r.occurred_at, r.id)

-- `ORDER BY occurred_at DESC, id DESC`
abbrev pub recent_first : StrictOrder ProcessingRow
recent_first = descending recency

-- `LIMIT 1`
abbrev pub first {ℓ} : {A : Type ℓ} → List A → Option A
first [] = none
first (x ∷ xs) = some x

-- `SELECT state INTO prior_state`
unfoldable pub prior_row : ℕ → List ProcessingRow → Option ProcessingRow
prior_row attempt rows =
    first (sort recent_first (keep (λ (r : ProcessingRow). r.attempt == attempt) rows))

-- The transitions that the trigger allows within an attempt.
unfoldable pub may_follow : Option ProcessingRow → ProcessingState → Bool
unfolding ProcessingState-discrete
may_follow none s = false
may_follow (some p) s =
    let prior = p.state in
    (s == verified && prior == quarantined)
    || (s == redacted && prior == verified)
    || (s == failed && (prior == quarantined || prior == verified))

-- A new attempt is the first one, or the highest one and one.
abbrev pub check_attempt : Option ℕ → ℕ → Result (Unit {0})
check_attempt none attempt =
    raise_if (not (attempt == 1)) (raised_by_trigger "first artifact processing attempt must be 1")
check_attempt (some highest) attempt =
    raise_if (not (attempt == suc highest))
      (raised_by_trigger "new artifact processing attempts must increment by one")

-- `netops_validate_artifact_processing_event`, for the rows of the artifact
unfoldable pub validate_event : List ProcessingRow → ProcessingRow → Result (Unit {0})
unfolding ProcessingState-discrete
validate_event rows new =
    if new.state == quarantined
    then check_attempt (highest_attempt rows) new.attempt
    else (raise_if (not (highest_attempt rows == some new.attempt))
          (raised_by_trigger "artifact processing state requires an active quarantined attempt")
        >> raise_if (not (may_follow (prior_row new.attempt rows) new.state))
            (raised_by_trigger "invalid artifact processing transition"))

-- `uq_artifact_processing_events_state_once`
abbrev pub is_repeat : ProcessingRow → ProcessingRow → Bool
is_repeat new r =
    r.artifact_id == new.artifact_id && r.attempt == new.attempt && r.state == new.state

-- What the table does with a row that the trigger lets through.
unfoldable pub store_event : ProcessingRow → Exec Ledger (Unit {0})
unfolding ProcessingState-discrete
store_event new l =
    if not (check_processing_event new)
    then (err (integrity_error "ck_artifact_processing_events"), l)
    else if any (λ (r : ProcessingRow). r.id == new.id) l.events
    then (err (integrity_error "artifact_processing_events_pkey"), l)
    else if any (is_repeat new) l.events
    then (err (integrity_error "uq_artifact_processing_events_state_once"), l)
    else if not
        (any (λ (a : ℕ × ℕ). a.0 == new.organization_id && a.1 == new.artifact_id) l.artifacts)
    then (err (integrity_error "artifact_processing_events_artifact_id_fkey"), l)
    else (ok tt, record l { events = new ∷ l.events })

-- The trigger runs before the constraints are tested.
abbrev pub store_if : Result (Unit {0}) → ProcessingRow → Exec Ledger (Unit {0})
store_if (ok _) new l = store_event new l
store_if (err e) new l = (err e, l)

unfoldable pub insert_processing_event : ProcessingRow → Exec Ledger (Unit {0})
insert_processing_event new l =
    store_if (validate_event (keep (is_of new.organization_id new.artifact_id) l.events) new) new l
