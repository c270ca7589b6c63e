-- ===== src/Keyset/Members.antt =====
-- Members of a list, and what holds between each element and the later ones.
use netops_copilot.Prelude.{
  ℕ, ◌≡◌, refl, sym, ap, subst, ◌∙◌, ◌↔◌, ◌⊎◌, inl, inr, Bool, true, Bool-cases, List, [], ◌∷◌,
}
use netops_copilot.Prelude.Lists.{All, All-map, keep}

abbrev pub Member : {A : Type 0} → A → List A → Type 0
Member x [] = ⊥
Member x (y ∷ ys) = (x ≡ y) ⊎ Member x ys

abbrev pub Pairwise {ℓ κ} : {A : Type ℓ} → (A → A → Type κ) → List A → Type κ
Pairwise R [] = Unit
Pairwise R (x ∷ xs) = All (R x) xs × Pairwise R xs

pub All-member {κ} :
    {A : Type 0} (P : A → Type κ) (xs : List A) → All P xs → (x : A) → Member x xs → P x
All-member P [] h x m = absurd m
All-member P (y ∷ ys) h x (inl p) = subst P (sym p) h.0
All-member P (y ∷ ys) h x (inr m) = All-member P ys h.1 x m

pub All-keep {ℓ κ} :
    {A : Type ℓ} (P : A → Type κ) (p : A → Bool) (xs : List A) → All P xs → All P (keep p xs)
All-keep P p [] h = tt
All-keep P p (x ∷ xs) h = elim (Bool-cases (p x)) [
  | inl t ↦ rw t (h.0, All-keep P p xs h.1)
  | inr f ↦ rw f (All-keep P p xs h.1)
]

pub Pairwise-keep {ℓ κ} :
    {A : Type ℓ} (R : A → A → Type κ) (p : A → Bool) (xs : List A)
    → Pairwise R xs
    → Pairwise R (keep p xs)
Pairwise-keep R p [] h = tt
Pairwise-keep R p (x ∷ xs) h = elim (Bool-cases (p x)) [
  | inl t ↦ rw t (All-keep (R x) p xs h.0, Pairwise-keep R p xs h.1)
  | inr f ↦ rw f (Pairwise-keep R p xs h.1)
]

pub Pairwise-map {ℓ κ μ} :
    {A : Type ℓ} {R : A → A → Type κ} {S : A → A → Type μ}
    → ((x y : A) → R x y → S x y)
    → (xs : List A) → Pairwise R xs
    → Pairwise S xs
Pairwise-map f [] h = tt
Pairwise-map f (x ∷ xs) h = (All-map (f x) xs h.0, Pairwise-map f xs h.1)

-- The rows that a test keeps are those of the list that pass it.
pub Member-keep :
    {A : Type 0} (p : A → Bool) (x : A) (xs : List A)
    → Member x (keep p xs) ↔ (Member x xs × (p x ≡ true))
Member-keep p x [] = ((λ m. absurd m), (λ m. absurd m.0))
Member-keep p x (y ∷ ys) = elim (Bool-cases (p y)) [
  | inl t ↦ rw t (
    (λ m. elim m [
      | inl e ↦ (inl e, ap p e ∙ t)
      | inr n ↦ let k = (Member-keep p x ys).0 n in (inr k.0, k.1)
    ]),
    (λ m. elim m.0 [ inl e ↦ inl e | inr n ↦ inr ((Member-keep p x ys).1 (n, m.1)) ]),
  )
  | inr f ↦ rw f (
    (λ m. let k = (Member-keep p x ys).0 m in (inr k.0, k.1)),
    (λ m. elim m.0 [
      | inl e ↦ absurd (let q = sym (m.1) ∙ ap p e ∙ f in cc q)
      | inr n ↦ (Member-keep p x ys).1 (n, m.1)
    ]),
  )
]

-- A test that a member passes, and that no other element can pass, keeps that member alone.
module _ {A : Type 0} (id : A → ℕ) (p : A → Bool) (x : A) where
  keep-none_of :
      ((y : A) → p y ≡ true → id x ≡ id y)
      → (ys : List A) → All (λ y. id x ≡ id y → ⊥) ys
      → keep p ys ≡ []
  keep-none_of only [] h = refl
  keep-none_of only (y ∷ ys) h = elim (Bool-cases (p y)) [
    | inl t ↦ absurd (h.0 (only y t))
    | inr f ↦ rw f (keep-none_of only ys h.1)
  ]

  pub keep_unique :
      ((y : A) → p y ≡ true → id x ≡ id y)
      → p x ≡ true
      → (xs : List A) → Pairwise (λ y z. id y ≡ id z → ⊥) xs
      → Member x xs
      → keep p xs ≡ x ∷ []
  keep_unique only t [] h m = absurd m
  keep_unique only t (y ∷ ys) h (inl e) =
      let all : All (λ z. id x ≡ id z → ⊥) ys = All-map (λ z n q. n (ap id (sym e) ∙ q)) ys h.0 in
      let s : p y ≡ true = ap p (sym e) ∙ t in
      rw s (ap (λ l. y ∷ l) (keep-none_of only ys all) ∙ ap (λ z. z ∷ []) (sym e))
  keep_unique only t (y ∷ ys) h (inr m) = elim (Bool-cases (p y)) [
    | inl s ↦ absurd (All-member (λ z. id y ≡ id z → ⊥) ys h.0 x m (sym (only y s)))
    | inr f ↦ rw f (keep_unique only t ys h.1 m)
  ]

-- A weaker test may be applied first.
pub keep-keep {ℓ} :
    {A : Type ℓ} (p q : A → Bool)
    → ((x : A) → q x ≡ true → p x ≡ true)
    → (xs : List A) → keep q (keep p xs) ≡ keep q xs
keep-keep p q weaker [] = refl
keep-keep p q weaker (x ∷ xs) = elim (Bool-cases (p x)) [
  | inl t ↦ elim (Bool-cases (q x)) [
    | inl s ↦ rw t (rw s (ap (λ l. x ∷ l) (keep-keep p q weaker xs)))
    | inr n ↦ rw t (rw n (keep-keep p q weaker xs))
  ]
  | inr f ↦ elim (Bool-cases (q x)) [
    | inl s ↦ absurd (let e = sym (weaker x s) ∙ f in cc e)
    | inr n ↦ rw f (rw n (keep-keep p q weaker xs))
  ]
]
