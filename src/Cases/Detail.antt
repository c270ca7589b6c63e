-- ===== src/Cases/Detail.antt =====
-- `TenantCaseRepository.get_detail` of services/api/netops_api/application/cases.py.
use netops_copilot.Prelude.{
  ℕ, String, ◌==◌, nat_eq, option_eq, Bool, ◌&&◌, Option, none, some, List, [], ◌∷◌, ◌++◌, map,
}
use netops_copilot.Prelude.Lists.{keep}
use netops_copilot.Prelude.Text.{Text}
use netops_copilot.Errors.{value_error, case_not_found, Result, ok, ◌>>=◌, or_raise, traverse}
use netops_copilot.Exec.{one_or_none}
use netops_copilot.Domain.States.{CaseState}
use netops_copilot.Storage.Tables.{CaseRow, TransitionRow, EventRow, Database}
use netops_copilot.Keyset.Order.{Key, StrictOrder, ascending3}
use netops_copilot.Keyset.Sort.{sort}
use netops_copilot.Cases.Commands.{CaseRecord, case_record}
use netops_copilot.Cases.Statements.{select_case}

pub record CaseTimelineEntry : Type 0 where
  pub event_id : ℕ
  pub event_type : String
  pub aggregate_version : ℕ
  pub transition_id : Option ℕ
  pub actor_id : ℕ
  pub correlation_id : ℕ
  pub occurred_at : ℕ
  pub from_state : Option CaseState
  pub to_state : Option CaseState
  pub approval_id : Option ℕ
  pub verification_note : Option Text
  pub knowledge_item_id : Option ℕ
  pub note : Option Text

pub record CaseDetail : Type 0 where
  pub case : CaseRecord
  pub timeline : List CaseTimelineEntry

-- An event and what a LEFT JOIN finds for it.
abbrev pub TimelineRow : Type 0
TimelineRow = EventRow × Option TransitionRow

-- `t.organization_id = e.organization_id AND t.id = e.transition_id`, which a NULL does not fulfil
abbrev pub is_transition_of : EventRow → TransitionRow → Bool
is_transition_of e t = t.organization_id == e.organization_id && some t.id == e.transition_id

abbrev pub joined : EventRow → List TransitionRow → List TimelineRow
joined e [] = (e, none) ∷ []
joined e (t ∷ ts) = map (λ (u : TransitionRow). (e, some u)) (t ∷ ts)

abbrev pub left_join : List TransitionRow → List EventRow → List TimelineRow
left_join transitions [] = []
left_join transitions (e ∷ es) =
    joined e (keep (is_transition_of e) transitions) ++ left_join transitions es

abbrev pub timeline_key : TimelineRow → ℕ × Key
timeline_key r = (r.0.aggregate_version, (r.0.occurred_at, r.0.id))

-- `ORDER BY e.aggregate_version ASC, e.occurred_at ASC, e.id ASC`
abbrev pub timeline_order : StrictOrder TimelineRow
timeline_order = ascending3 timeline_key

-- `_SELECT_TIMELINE`
unfoldable pub select_timeline : ℕ → ℕ → Database → List TimelineRow
select_timeline org case_id db = sort timeline_order (
    left_join db.case_transitions
      (keep (λ (e : EventRow). e.organization_id == org && e.case_id == case_id) db.case_events))

-- A column of the joined transition, which may be NULL.
abbrev pub column {ℓ} : {A : Type ℓ} → (TransitionRow → Option A) → Option TransitionRow → Option A
column f none = none
column f (some t) = f t

-- `_timeline_entry`: a NULL actor raises.
unfoldable pub timeline_entry : TimelineRow → Result CaseTimelineEntry
timeline_entry (e, t) =
    or_raise e.actor_id (value_error "badly formed hexadecimal UUID string") >>= λ (actor_id : ℕ).
    ok (record {
      event_id = e.id;
      event_type = e.event_type;
      aggregate_version = e.aggregate_version;
      transition_id = e.transition_id;
      actor_id = actor_id;
      correlation_id = e.correlation_id;
      occurred_at = e.occurred_at;
      from_state = column (λ (u : TransitionRow). some u.from_state) t;
      to_state = column (λ (u : TransitionRow). some u.to_state) t;
      approval_id = column (λ (u : TransitionRow). u.approval_id) t;
      verification_note = column (λ (u : TransitionRow). u.verification_note) t;
      knowledge_item_id = column (λ (u : TransitionRow). u.knowledge_item_id) t;
      note = column (λ (u : TransitionRow). u.note) t;
    })

-- `get_detail`
unfoldable pub get_detail : ℕ → ℕ → Database → Result CaseDetail
get_detail organization_id case_id db =
    one_or_none (select_case organization_id case_id db) >>= λ (found : Option CaseRow).
    or_raise found (case_not_found case_id) >>= λ (row : CaseRow).
    traverse timeline_entry (select_timeline organization_id case_id db)
    >>= λ (timeline : List CaseTimelineEntry).
        ok (record { case = case_record row; timeline = timeline })
