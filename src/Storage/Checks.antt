-- ===== src/Storage/Checks.antt =====
-- The CHECK constraints of services/api/alembic/versions on the case tables, as tests of a row.
use netops_copilot.Prelude.{
  ℕ, ◌==◌, nat_eq, string_eq, contains, leb, ltb, Bool, true, false, not, ◌&&◌, ◌||◌, Option, none,
  some, List, [], ◌∷◌, String, reverse,
}
use netops_copilot.Prelude.Lists.{length, all}
use netops_copilot.Prelude.Text.{Text, codes, drop_while, is_empty}
use netops_copilot.Domain.States.{
  CaseState, new, investigating, diagnosed, fix_proposed, needs_information, confirmed, resolved,
  learned, human, service, CaseState-discrete, ActorKind-discrete, case_state_eq, actor_kind_eq,
}
use netops_copilot.Storage.Tables.{CaseRow, CaseInputRow, TransitionRow, EventRow, OutboxRow}

-- `btrim(text)` of PostgreSQL removes the space character, and no other, at both ends.
abbrev pub is_blank_space : ℕ → Bool
is_blank_space c = c == 32

unfoldable pub btrim : Text → Text
btrim s = reverse (drop_while is_blank_space (reverse (drop_while is_blank_space s)))

-- `length(btrim(column)) > 0`
unfoldable pub is_filled : Text → Bool
unfolding btrim
is_filled s = not (is_empty (btrim s))

-- `column IS NOT NULL AND length(btrim(column)) > 0`
abbrev pub is_filled_text : Option Text → Bool
is_filled_text none = false
is_filled_text (some s) = is_filled s

-- `column IS NOT NULL`
abbrev pub is_present {ℓ} : {A : Type ℓ} → Option A → Bool
is_present none = false
is_present (some _) = true

-- `[0-9a-f]`
abbrev pub is_lower_hex : ℕ → Bool
is_lower_hex c = (leb b'0' c && leb c b'9') || (leb b'a' c && leb c b'f')

-- `column ~ '^[0-9a-f]{64}$'`
unfoldable pub is_sha256 : Text → Bool
is_sha256 s = length s == 64 && all is_lower_hex s

abbrev pub severities : List String
severities = "low" ∷ "medium" ∷ "high" ∷ "critical" ∷ []

unfoldable pub check_case : CaseRow → Bool
unfolding btrim
check_case r =
    is_filled r.title
    && (leb 1 (length (btrim r.idempotency_key)) && leb (length (btrim r.idempotency_key)) 255)
    && is_sha256 r.request_sha256
    && contains severities r.severity

unfoldable pub check_case_input : CaseInputRow → Bool
check_case_input r = is_filled r.input_kind && is_sha256 r.content_sha256

-- `ck_case_transitions_allowed_edge`
unfoldable pub check_edge : CaseState → CaseState → Bool
unfolding CaseState-discrete
check_edge f t =
    (f == new && t == investigating)
    || (f == investigating && contains (diagnosed ∷ needs_information ∷ []) t)
    || (f == needs_information && t == investigating)
    || (f == diagnosed && t == fix_proposed)
    || (f == fix_proposed && t == confirmed)
    || (f == confirmed && t == resolved)
    || (f == resolved && t == learned)

unfoldable pub check_transition : TransitionRow → Bool
unfolding CaseState-discrete ActorKind-discrete
check_transition r =
    ltb 0 r.version
    && contains (human ∷ service ∷ []) r.actor_kind
    && check_edge r.from_state r.to_state
    && (not (r.to_state == confirmed) || (r.actor_kind == human && is_present r.approval_id))
    && (not (r.to_state == resolved)
        || (r.actor_kind == human && is_filled_text r.verification_note))
    && (not (r.to_state == learned) || (r.actor_kind == service && is_present r.knowledge_item_id))
    && (not (r.to_state == needs_information) || is_filled_text r.note)

-- The NOT NULL of `actor_id` is among the tests of an event row.
unfoldable pub check_event : EventRow → Bool
check_event r = is_present r.actor_id && is_filled (codes r.event_type)

unfoldable pub check_outbox : OutboxRow → Bool
check_outbox r = is_filled (codes r.event_type)
