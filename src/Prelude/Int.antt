-- ===== src/Prelude/Int.antt =====
-- Python's `int`, and `timedelta` as its microseconds, where the program may be given a negative
-- one.
use Prim.Native.Nat.{ℕ, zero, suc}
use mathlib.Core.Bool.{Bool, true, false}

pub data ℤ : Type 0 where
  pos : ℕ → ℤ
  -- `negsuc n` is -(n + 1)
  negsuc : ℕ → ℤ

-- `0 < i`
abbrev pub is_positive : ℤ → Bool
is_positive (pos (suc n)) = true
is_positive _ = false

-- `n - 1`
abbrev pub minus_one : ℕ → ℤ
minus_one zero = negsuc 0
minus_one (suc n) = pos n

-- An integer that is known not to be negative.
abbrev pub natural : ℤ → ℕ
natural (pos n) = n
natural (negsuc n) = 0
