-- ===== src/Prelude/Time.antt =====
-- `datetime`: the instant in microseconds since the year 1 in UTC, and the attached time zone.
use Prim.Native.Nat.{ℕ}
use mathlib.Core.Bool.{Bool, true, false}

-- `naive` is `tzinfo=None`; `utc` is the object `datetime.UTC`; any other zone object is `zone`,
-- with its offset from UTC in seconds, biased by a day so that it is a natural number.
pub data TzInfo : Type 0 where
  naive utc : TzInfo
  zone : ℕ → TzInfo

pub record Datetime : Type 0 where
  pub instant : ℕ
  pub tzinfo : TzInfo

-- `value.tzinfo is not UTC or value.utcoffset() != UTC.utcoffset(value)`, negated: with `tzinfo`
-- the object `UTC` the two offsets are one call.
abbrev pub is_utc : Datetime → Bool
is_utc t = elim t.tzinfo [ utc ↦ true | _ ↦ false ]

-- `not (value.tzinfo is None or value.utcoffset() is None)`
abbrev pub is_aware : Datetime → Bool
is_aware t = elim t.tzinfo [ naive ↦ false | _ ↦ true ]
