-- ===== src/Cases/Consistency.antt =====
-- The history behind a case projection, as the deferred triggers of
-- services/api/alembic/versions/20260715_02_case_spine.py ask for it.
use netops_copilot.Prelude.{ℕ, suc, nat_eq, ◌≡◌, subst, Option, none, some}
use mathlib.Core.List.{Memᴰ}
use netops_copilot.Prelude.Lists.{All}
use netops_copilot.Domain.States.{CaseState, new}
use netops_copilot.Storage.Tables.{CaseRow, TransitionRow, EventRow, OutboxRow, Database}

module _ (db : Database) (organization_id case_id : ℕ) where
  -- An event of the case at a version, with its outbox row.
  pub record HasEvent (transition_id : Option ℕ) (version : ℕ) : Type 0 where
    pub event : EventRow
    pub stored : Memᴰ event db.case_events
    pub event_organization : event.organization_id ≡ organization_id
    pub event_case : event.case_id ≡ case_id
    pub event_transition : event.transition_id ≡ transition_id
    pub event_version : event.aggregate_version ≡ version
    pub outbox : OutboxRow
    pub queued : Memᴰ outbox db.outbox_events
    pub outbox_event : outbox.case_event_id ≡ event.id
    pub outbox_organization : outbox.organization_id ≡ organization_id
    pub outbox_case : outbox.case_id ≡ case_id
    pub outbox_version : outbox.aggregate_version ≡ version
    pub outbox_type : outbox.event_type ≡ event.event_type

  -- A chain of stored transitions from the creation to a state and a version, each with its event.
  pub data HasHistory : CaseState → ℕ → Type 0 where
    created : (e : HasEvent none 0) → e.event.event_type ≡ "case.created.v1" → HasHistory new 0
    moved :
        {from : CaseState} {version : ℕ}
        → HasHistory from version
        → (t : TransitionRow) → Memᴰ t db.case_transitions
        → t.organization_id ≡ organization_id
        → t.case_id ≡ case_id
        → t.from_state ≡ from
        → t.version ≡ suc version
        → HasEvent (some t.id) (suc version)
        → {to : CaseState} → t.to_state ≡ to
        → HasHistory to (suc version)

-- Every case stands at the end of its stored history.
abbrev pub IsConsistent : Database → Type 0
IsConsistent db =
    All (λ (r : CaseRow). HasHistory db r.organization_id r.id r.state r.version) db.cases

-- The second database holds all the history of the first.
pub record Extends (db db' : Database) : Type 0 where
  pub transitions : (t : TransitionRow) → Memᴰ t db.case_transitions → Memᴰ t db'.case_transitions
  pub events : (e : EventRow) → Memᴰ e db.case_events → Memᴰ e db'.case_events
  pub outbox_rows : (x : OutboxRow) → Memᴰ x db.outbox_events → Memᴰ x db'.outbox_events

module _ {db db' : Database} (ext : Extends db db') {organization_id case_id : ℕ} where
  HasEvent-Extends :
      {t : Option ℕ} {v : ℕ}
      → HasEvent db organization_id case_id t v
      → HasEvent db' organization_id case_id t v
  HasEvent-Extends h = record {
    event = h.event;
    stored = ext.events h.event h.stored;
    event_organization = h.event_organization;
    event_case = h.event_case;
    event_transition = h.event_transition;
    event_version = h.event_version;
    outbox = h.outbox;
    queued = ext.outbox_rows h.outbox h.queued;
    outbox_event = h.outbox_event;
    outbox_organization = h.outbox_organization;
    outbox_case = h.outbox_case;
    outbox_version = h.outbox_version;
    outbox_type = h.outbox_type;
  }

  pub HasHistory-Extends :
      {s : CaseState} {v : ℕ}
      → HasHistory db organization_id case_id s v
      → HasHistory db' organization_id case_id s v
  unfolding HasEvent-Extends
  HasHistory-Extends (created e k) = created (HasEvent-Extends e) k
  HasHistory-Extends (moved h t m o c f n e g) =
      moved (HasHistory-Extends h) t (ext.transitions t m) o c f n (HasEvent-Extends e) g

-- `moved` at a version that is known only by an equation.
pub moved_at :
    {db : Database} {organization_id case_id : ℕ} {from to : CaseState} {version next : ℕ}
    → HasHistory db organization_id case_id from version
    → suc version ≡ next
    → (t : TransitionRow) → Memᴰ t db.case_transitions
    → t.organization_id ≡ organization_id
    → t.case_id ≡ case_id
    → t.from_state ≡ from
    → t.to_state ≡ to
    → t.version ≡ next
    → HasEvent db organization_id case_id (some t.id) next
    → HasHistory db organization_id case_id to next
moved_at {db} {organization_id} {case_id} {to = to} h e t m o c f g n v =
    subst
      (λ (k : ℕ).
        t.version ≡ k
        → HasEvent db organization_id case_id (some t.id) k
        → HasHistory db organization_id case_id to k)
      e (λ n' v'. moved h t m o c f n' v' g) n v
