-- ===== src/Keyset/Pages.antt =====
-- The page after a row: of sorted rows, those that the test of the next statement keeps.
use netops_copilot.Prelude.{
  ℕ, zero, suc, ◌-◌, ◌≡◌, refl, sym, ap, ◌∙◌, true, false, Bool-cases, Option, none, some, inl, inr,
  List, [], ◌∷◌, ◌++◌, arith,
}
use netops_copilot.Prelude.Lists.{length, take, drop, All, keep}
use netops_copilot.Keyset.Order.{StrictOrder}
use netops_copilot.Keyset.Members.{Member}
use netops_copilot.Keyset.Sort.{IsSorted}

-- `rows[-1]`, where there is one
abbrev pub last {ℓ} : {A : Type ℓ} → List A → Option A
last [] = none
last (x ∷ []) = some x
last (x ∷ y ∷ ys) = last (y ∷ ys)

pub last-append {ℓ} : {A : Type ℓ} (xs : List A) (x : A) → last (xs ++ x ∷ []) ≡ some x
last-append [] x = refl
last-append (y ∷ []) x = refl
last-append (y ∷ z ∷ zs) x = last-append (z ∷ zs) x

-- A page that is not empty ends in a row, after which the rest of the rows begins.
pub take-last {ℓ} :
    {A : Type ℓ} (n : ℕ) (x : A) (xs : List A)
    → (front : List A) × (end : A) × (take (suc n) (x ∷ xs) ≡ front ++ end ∷ [])
      × (x ∷ xs ≡ front ++ end ∷ drop (suc n) (x ∷ xs))
take-last zero x xs = ([], x, refl, refl)
take-last (suc n) x [] = ([], x, refl, refl)
take-last (suc n) x (y ∷ ys) =
    let (front, end, p, q) = take-last n y ys in
    (x ∷ front, end, ap (λ l. x ∷ l) p, ap (λ l. x ∷ l) q)

pub take-append-drop {ℓ} : {A : Type ℓ} (n : ℕ) (xs : List A) → take n xs ++ drop n xs ≡ xs
take-append-drop zero xs = refl
take-append-drop (suc n) [] = refl
take-append-drop (suc n) (x ∷ xs) = ap (λ l. x ∷ l) (take-append-drop n xs)

pub length-drop {ℓ} : {A : Type ℓ} (n : ℕ) (xs : List A) → length (drop n xs) ≡ length xs - n
length-drop zero xs = omega arith
length-drop (suc n) [] = omega arith
length-drop (suc n) (x ∷ xs) = omega (arith, length-drop n xs)

pub Member-middle : {A : Type 0} (xs : List A) (x : A) (ys : List A) → Member x (xs ++ x ∷ ys)
Member-middle [] x ys = inl refl
Member-middle (z ∷ zs) x ys = inr (Member-middle zs x ys)

module _ {ℓ} {A : Type ℓ} (order : StrictOrder A) where
  -- No row is before itself or before an earlier row.
  not_before : (x y : A) → order.less x y ≡ true → order.less y x ≡ false
  not_before x y t = elim (Bool-cases (order.less y x)) [
    | inl s ↦
        let bad = order.transitive x y x t s in
        let no = order.irreflexive x in absurd (let q = sym bad ∙ no in cc q)
    | inr f ↦ f
  ]

  keep-later :
      (x : A) (ys : List A) → All (λ z. order.less x z ≡ true) ys → keep (order.less x) ys ≡ ys
  keep-later x [] h = refl
  keep-later x (y ∷ ys) h = rw h.0 (ap (λ l. y ∷ l) (keep-later x ys h.1))

  All-middle {κ} : (P : A → Type κ) (xs : List A) (x : A) (ys : List A) → All P (xs ++ x ∷ ys) → P x
  All-middle P [] x ys h = h.0
  All-middle P (z ∷ zs) x ys h = All-middle P zs x ys h.1

  pub keep-after :
      (xs : List A) (x : A) (ys : List A)
      → IsSorted order (xs ++ x ∷ ys)
      → keep (order.less x) (xs ++ x ∷ ys) ≡ ys
  keep-after [] x ys s = rw (order.irreflexive x) (keep-later x ys s.0)
  keep-after (z ∷ zs) x ys s =
      rw (not_before z x (All-middle (λ y. order.less z y ≡ true) zs x ys s.0))
        (keep-after zs x ys s.1)
