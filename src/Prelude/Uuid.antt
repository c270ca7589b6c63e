-- ===== src/Prelude/Uuid.antt =====
-- `uuid.UUID` as its 128-bit integer, and `str(uuid)`.
use Prim.Native.Nat.{ℕ, zero, suc, ◌+◌, ◌/◌, ◌%◌, ◌^◌}
use mathlib.Core.List.{[], ◌∷◌, ◌++◌}
use package.netops_copilot.Prelude.Tests.{ltb, if◌then◌else◌}
use package.netops_copilot.Prelude.Text.{Text, codes}

hex_digit : ℕ → ℕ
hex_digit d = if ltb d 10 then b'0' + d else b'a' + d

-- the lowest `k` hexadecimal digits, the highest of them first
hex : ℕ → ℕ → Text
unfolding hex_digit
hex zero n = []
hex (suc k) n = hex k (n / 16) ++ hex_digit (n % 16) ∷ []

unfoldable pub uuid_text : ℕ → Text
unfolding hex
uuid_text u =
    hex 8 (u / 2 ^ 96)
    ++ codes "-"
    ++ hex 4 (u / 2 ^ 80)
    ++ codes "-"
    ++ hex 4 (u / 2 ^ 64)
    ++ codes "-"
    ++ hex 4 (u / 2 ^ 48)
    ++ codes "-"
    ++ hex 12 u
