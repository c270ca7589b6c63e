-- ===== src/Prelude/Decimal.antt =====
-- `str(n)` of a natural number.
use Prim.Native.Nat.{ℕ, zero, suc, ◌+◌, ◌/◌, ◌%◌}
use mathlib.Core.List.{[], ◌∷◌, ◌++◌}
use mathlib.Core.Bool.{true, false}
use package.netops_copilot.Prelude.Tests.{ltb}
use package.netops_copilot.Prelude.Text.{Text}

-- A number below 10 ^ (k + 1) has at most k + 1 digits.
digits : ℕ → ℕ → Text
digits zero n = (b'0' + n % 10) ∷ []
digits (suc k) n = elim (ltb n 10) [
  | true ↦ (b'0' + n) ∷ []
  | false ↦ digits k (n / 10) ++ (b'0' + n % 10) ∷ []
]

-- Since n < 10 ^ n, n digits are enough.
unfoldable pub decimal : ℕ → Text
unfolding digits
decimal n = digits n n
