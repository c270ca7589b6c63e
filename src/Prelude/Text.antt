-- ===== src/Prelude/Text.antt =====
-- Python's `str` where the program walks it: a list of code points.
use Prim.Native.Nat.{ℕ}
use Prim.Native.Char.{code}
use Prim.Native.String.{String}
use mathlib.Core.Bool.{Bool, true, false, ◌&&◌, ◌||◌}
use mathlib.Core.List.{List, [], ◌∷◌, reverse}
use package.netops_copilot.Prelude.Tests.{leb, if◌then◌else◌}
use package.netops_copilot.Prelude.Equality.{◌==◌, nat_eq}

abbrev pub Text : Type 0
Text = List ℕ

-- The code points of a literal.
abbrev pub codes : String → Text
codes String.[] = []
codes (String.◌∷◌ c s) = code c ∷ codes s

-- `str.isspace` of one character: what `strip` removes with no argument.
unfoldable pub is_space : ℕ → Bool
is_space c =
    (leb 9 c && leb c 13)
    || (leb 28 c && leb c 32)
    || c == 133
    || c == 160
    || c == 5760
    || (leb 8192 c && leb c 8202)
    || c == 8232
    || c == 8233
    || c == 8239
    || c == 8287
    || c == 12288

-- Drops the leading characters that pass a test.
abbrev pub drop_while : (ℕ → Bool) → Text → Text
drop_while p [] = []
drop_while p (c ∷ s) = let rest = drop_while p s in if p c then rest else c ∷ s

unfoldable pub strip : Text → Text
unfolding is_space
strip s = reverse (drop_while is_space (reverse (drop_while is_space s)))

abbrev pub is_empty : Text → Bool
is_empty [] = true
is_empty (_ ∷ _) = false

-- `not value.strip()`
unfoldable pub is_blank : Text → Bool
unfolding strip
is_blank s = is_empty (strip s)
