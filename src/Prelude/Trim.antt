-- ===== src/Prelude/Trim.antt =====
-- Removing characters at both ends leaves nothing exactly when every character is one of them.
use Prim.Native.Nat.{ℕ}
use mathlib.Core.Path.{◌≡◌, refl, ◌∙◌}
use mathlib.Core.Bool.{Bool, true, false, ◌&&◌}
use mathlib.Core.List.{[], ◌∷◌, ◌++◌, reverse, reverse-cons}
use native.Mathlib.Omega.{arith}
use package.netops_copilot.Prelude.Lists.{all}
use package.netops_copilot.Prelude.Text.{Text, drop_while, is_empty}

module _ (p : ℕ → Bool) where
  all-drop_while : (s : Text) → all p (drop_while p s) ≡ all p s
  all-drop_while [] = refl
  all-drop_while (c ∷ s) = ground (arith, all-drop_while s)

  is_empty-drop_while : (s : Text) → is_empty (drop_while p s) ≡ all p s
  is_empty-drop_while [] = refl
  is_empty-drop_while (c ∷ s) = ground (arith, is_empty-drop_while s)

  all-append : (s t : Text) → all p (s ++ t) ≡ (all p s && all p t)
  all-append [] t = refl
  all-append (c ∷ s) t = ground (arith, all-append s t)

  all-reverse : (s : Text) → all p (reverse s) ≡ all p s
  all-reverse [] = refl
  all-reverse (c ∷ s) = rw (reverse-cons, all-append) (ground (arith, all-reverse s))

is_empty-append : (s : Text) (c : ℕ) → is_empty (s ++ c ∷ []) ≡ false
is_empty-append [] c = refl
is_empty-append (d ∷ s) c = refl

is_empty-reverse : (s : Text) → is_empty (reverse s) ≡ is_empty s
is_empty-reverse [] = refl
is_empty-reverse (c ∷ s) = rw reverse-cons (is_empty-append (reverse s) c)

pub is_empty-trim :
    (p : ℕ → Bool) (s : Text)
    → is_empty (reverse (drop_while p (reverse (drop_while p s)))) ≡ all p s
is_empty-trim p s =
    is_empty-reverse (drop_while p (reverse (drop_while p s)))
    ∙ is_empty-drop_while p (reverse (drop_while p s))
    ∙ all-reverse p (drop_while p s)
    ∙ all-drop_while p s

pub all_mono :
    (p q : ℕ → Bool) (s : Text)
    → ((c : ℕ) → p c ≡ true → q c ≡ true)
    → all p s ≡ true
    → all q s ≡ true
all_mono p q [] h a = refl
all_mono p q (c ∷ s) h a = ground (arith, h c, all_mono p q s h)
