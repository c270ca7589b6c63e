-- ===== src/Ledger/Tables.antt =====
-- The table `artifact_processing_events` of
-- services/api/alembic/versions/20260716_05_artifact_processing_ledger.py and its constraints.
use netops_copilot.Prelude.{
  ℕ, Eq, dec_beq, dec_beq_iff, ◌==◌, nat_eq, leb, Bool, true, false, ◌&&◌, ◌||◌, Option, none, some,
  List, [], ◌∷◌, if◌then◌else◌, not,
}
use netops_copilot.Prelude.Lists.{length, all}
use netops_copilot.Prelude.Text.{Text}
use netops_copilot.Prelude.Json.{Json, obj}
use netops_copilot.Storage.Checks.{btrim, is_present}

pub data ProcessingState : Type 0 where
  quarantined verified redacted failed : ProcessingState

unfoldable pub ProcessingState-discrete : Discrete ProcessingState
ProcessingState-discrete = hlevel

instance abbrev pub processing_state_eq : Eq ProcessingState
unfolding ProcessingState-discrete
processing_state_eq = record {
  beq = dec_beq ProcessingState-discrete;
  beq_iff = dec_beq_iff ProcessingState-discrete;
}

pub record ProcessingRow : Type 0 where
  pub id : ℕ
  pub organization_id : ℕ
  pub artifact_id : ℕ
  pub attempt : ℕ
  pub state : ProcessingState
  pub processor : Text
  pub processor_version : Text
  pub failure_code : Option Text
  pub result_summary : Json
  pub correlation_id : ℕ
  pub created_by_actor_id : Option ℕ
  pub occurred_at : ℕ

-- The artifacts by organization and identity, and the ledger.
pub record Ledger : Type 0 where
  pub artifacts : List (ℕ × ℕ)
  pub events : List ProcessingRow

-- `[a-z0-9]`
abbrev pub begins_code : ℕ → Bool
begins_code c = (leb b'a' c && leb c b'z') || (leb b'0' c && leb c b'9')

-- `failure_code ~ '^[a-z0-9][a-z0-9_.-]{0,127}$'`
unfoldable pub is_failure_code : Text → Bool
is_failure_code [] = false
is_failure_code (c ∷ s) =
    begins_code c
    && leb (length s) 127
    && all (λ (d : ℕ). begins_code d || d == b'_' || d == b'.' || d == b'-') s

abbrev is_name : Text → Bool
is_name s = leb 1 (length (btrim s)) && leb (length (btrim s)) 128

abbrev is_object : Json → Bool
is_object (obj _) = true
is_object _ = false

-- The CHECK constraints, but for the 8192 octets of the text of the summary.
unfoldable pub check_processing_event : ProcessingRow → Bool
unfolding is_failure_code btrim ProcessingState-discrete
check_processing_event r =
    leb 1 r.attempt
    && is_name r.processor
    && is_name r.processor_version
    && elim r.failure_code [ none ↦ true | some code ↦ is_failure_code code ]
    && (if r.state == failed then is_present r.failure_code else not (is_present r.failure_code))
    && is_object r.result_summary
