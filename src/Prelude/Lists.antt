-- ===== src/Prelude/Lists.antt =====
-- Lists over the native numbers: the library's names and argument order.
use Prim.Native.Nat.{ℕ, zero, suc, ◌+◌, ◌≤◌}
use mathlib.Core.Path.{◌≡◌, refl}
use mathlib.Core.Logic.{◌⊎◌, inl, inr}
use mathlib.Core.Bool.{Bool, true, false, ◌&&◌, ◌||◌}
use mathlib.Core.Option.{Option, none, some}
use mathlib.Core.List.{List, [], ◌∷◌, ◌++◌}
use native.Mathlib.Omega.{arith}
use package.netops_copilot.Prelude.Tests.{if◌then◌else◌, Bool-cases}

module _ {ℓ} {A : Type ℓ} where
  abbrev pub length : List A → ℕ
  length [] = 0
  length (x ∷ xs) = suc (length xs)

  abbrev pub take : ℕ → List A → List A
  take zero xs = []
  take (suc n) [] = []
  take (suc n) (x ∷ xs) = x ∷ take n xs

  abbrev pub drop : ℕ → List A → List A
  drop zero xs = xs
  drop (suc n) [] = []
  drop (suc n) (x ∷ xs) = drop n xs

  abbrev pub all : (A → Bool) → List A → Bool
  all p [] = true
  all p (x ∷ xs) = p x && all p xs

  abbrev pub any : (A → Bool) → List A → Bool
  any p [] = false
  any p (x ∷ xs) = p x || any p xs

  -- the rows that pass a test
  abbrev pub keep : (A → Bool) → List A → List A
  keep p [] = []
  keep p (x ∷ xs) = let rest = keep p xs in if p x then x ∷ rest else rest

  -- the first row that passes a test
  abbrev pub find : (A → Bool) → List A → Option A
  find p [] = none
  find p (x ∷ xs) = if p x then some x else find p xs

  pub length-append : (xs ys : List A) → length (xs ++ ys) ≡ length xs + length ys
  length-append [] ys = omega arith
  length-append (x ∷ xs) ys = omega (arith, length-append xs ys)

  pub length-take_le : (n : ℕ) (xs : List A) → length (take n xs) ≤ n
  length-take_le zero xs = omega arith
  length-take_le (suc n) [] = omega arith
  length-take_le (suc n) (x ∷ xs) = omega (arith, length-take_le n xs)

-- A predicate of every element, by recursion, so that tactics read it.
abbrev pub All {ℓ κ} : {A : Type ℓ} → (A → Type κ) → List A → Type κ
All P [] = Unit
All P (x ∷ xs) = P x × All P xs

-- The three ways in which a result that should be one row can come back.
pub List-cases {ℓ} :
    {A : Type ℓ} (xs : List A)
    → (xs ≡ [])
      ⊎ ((x : A) × (xs ≡ x ∷ []))
      ⊎ ((x : A) × (y : A) × (rest : List A) × (xs ≡ x ∷ y ∷ rest))
List-cases [] = inl refl
List-cases (x ∷ []) = inr (inl (x, refl))
List-cases (x ∷ y ∷ rest) = inr (inr (x, y, rest, refl))

pub All-map {ℓ κ μ} :
    {A : Type ℓ} {P : A → Type κ} {Q : A → Type μ}
    → ((x : A) → P x → Q x)
    → (xs : List A) → All P xs
    → All Q xs
All-map f [] h = tt
All-map f (x ∷ xs) h = (f x h.0, All-map f xs h.1)

-- If one row alone passes the test, every row that passes it is that row.
module _ {ℓ} {A : Type ℓ} (p : A → Bool) where
  keep-empty : (xs : List A) → keep p xs ≡ [] → All (λ (x : A). p x ≡ true → ⊥) xs
  keep-empty [] h = tt
  keep-empty (x ∷ xs) h = elim (Bool-cases (p x)) [
    | inl t ↦ cc (t, h)
    | inr f ↦ ((λ t. cc (f, t)), keep-empty xs (rw f at h))
  ]

  pub keep-single :
      (xs : List A) (row : A) → keep p xs ≡ row ∷ [] → All (λ (x : A). p x ≡ true → x ≡ row) xs
  keep-single [] row h = cc
  keep-single (x ∷ xs) row h = elim (Bool-cases (p x)) [
    | inl t ↦
        let e = rw t at h in
        ((λ _. cc e), All-map (λ y no yes_y. absurd (no yes_y)) xs (keep-empty xs (cc e)))
    | inr f ↦ ((λ t. cc (f, t)), keep-single xs row (rw f at h))
  ]

-- The first row that is kept passes the test.
pub keep-holds {ℓ} :
    {A : Type ℓ} (p : A → Bool) (xs : List A) (x : A) (rest : List A)
    → keep p xs ≡ x ∷ rest
    → p x ≡ true
keep-holds p [] x rest h = cc
keep-holds p (y ∷ ys) x rest h = elim (Bool-cases (p y)) [
  | inl t ↦ let e = rw t at h in cc (e, t)
  | inr f ↦ keep-holds p ys x rest (rw f at h)
]

pub keep-none {ℓ} : {A : Type ℓ} (p : A → Bool) (xs : List A) → any p xs ≡ false → keep p xs ≡ []
keep-none p [] h = refl
keep-none p (x ∷ xs) h = ground (arith, keep-none p xs)

pub any-keep_nil {ℓ} : {A : Type ℓ} (p : A → Bool) (xs : List A) → keep p xs ≡ [] → any p xs ≡ false
any-keep_nil p [] h = refl
any-keep_nil p (x ∷ xs) h = elim (Bool-cases (p x)) [
  | inl t ↦ let e = rw t at h in cc e
  | inr f ↦ rw (f, any-keep_nil p xs (rw f at h)) refl
]

pub keep-first {ℓ} :
    {A : Type ℓ} (p : A → Bool) (x : A) (xs : List A)
    → p x ≡ true
    → any p xs ≡ false
    → (keep p (x ∷ xs) ≡ x ∷ []) × (any p (x ∷ xs) ≡ true)
keep-first p x xs h n = ground (arith, keep-none p xs n)

pub keep-and {ℓ} :
    {A : Type ℓ} (p q : A → Bool) (xs : List A)
    → keep (λ (x : A). p x && q x) xs ≡ keep q (keep p xs)
keep-and p q [] = refl
keep-and p q (x ∷ xs) = elim (Bool-cases (p x)) [
  | inl h ↦ rw (h, keep-and p q xs)
  | inr h ↦ rw (h, keep-and p q xs)
]
