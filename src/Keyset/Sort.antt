-- ===== src/Keyset/Sort.antt =====
-- `ORDER BY`: the rows in the order of their keys, by insertion.
use netops_copilot.Prelude.{
  ◌≡◌, refl, sym, ap, ◌∙◌, ◌↔◌, inl, inr, Bool, true, false, Bool-cases, List, [], ◌∷◌,
  if◌then◌else◌,
}
use netops_copilot.Prelude.Lists.{All, All-map, keep}
use netops_copilot.Keyset.Order.{StrictOrder}
use netops_copilot.Keyset.Members.{Member, Pairwise, All-keep}

module _ {ℓ} {A : Type ℓ} (order : StrictOrder A) where
  abbrev pub insert : A → List A → List A
  insert x [] = x ∷ []
  insert x (y ∷ ys) = let rest = insert x ys in if order.less x y then x ∷ y ∷ ys else y ∷ rest

  abbrev pub sort : List A → List A
  sort [] = []
  sort (x ∷ xs) = insert x (sort xs)

  abbrev pub IsSorted : List A → Type 0
  IsSorted = Pairwise (λ x y. order.less x y ≡ true)

  -- One of two rows comes before the other.
  abbrev pub IsComparable : A → A → Type 0
  IsComparable x y = order.less x y ≡ false → order.less y x ≡ true

  All-insert {κ} : (P : A → Type κ) (x : A) (ys : List A) → P x → All P ys → All P (insert x ys)
  All-insert P x [] h all = (h, tt)
  All-insert P x (y ∷ ys) h all = elim (Bool-cases (order.less x y)) [
    | inl t ↦ rw t (h, all)
    | inr f ↦ rw f (all.0, All-insert P x ys h all.1)
  ]

  pub All-sort {κ} : (P : A → Type κ) (xs : List A) → All P xs → All P (sort xs)
  All-sort P [] h = tt
  All-sort P (x ∷ xs) h = All-insert P x (sort xs) h.0 (All-sort P xs h.1)

  -- A row that is before the first of sorted rows is before all of them.
  All-less :
      (x y : A) (ys : List A)
      → order.less x y ≡ true
      → All (λ z. order.less y z ≡ true) ys
      → All (λ z. order.less x z ≡ true) ys
  All-less x y ys t = All-map (λ z. order.transitive x y z t) ys

  insert-IsSorted :
      (x : A) (ys : List A) → All (IsComparable x) ys → IsSorted ys → IsSorted (insert x ys)
  insert-IsSorted x [] c s = (tt, tt)
  insert-IsSorted x (y ∷ ys) c s = elim (Bool-cases (order.less x y)) [
    | inl t ↦ rw t ((t, All-less x y ys t s.0), s)
    | inr f ↦
        rw f
          (All-insert (λ z. order.less y z ≡ true) x ys (c.0 f) s.0, insert-IsSorted x ys c.1 s.1)
  ]

  pub sort-IsSorted : (xs : List A) → Pairwise IsComparable xs → IsSorted (sort xs)
  sort-IsSorted [] h = tt
  sort-IsSorted (x ∷ xs) h =
      insert-IsSorted x (sort xs) (All-sort (IsComparable x) xs h.0) (sort-IsSorted xs h.1)

  pub insert-first :
      (x : A) (ys : List A) → All (λ z. order.less x z ≡ true) ys → insert x ys ≡ x ∷ ys
  insert-first x [] h = refl
  insert-first x (y ∷ ys) h = rw h.0 refl

  keep-insert :
      (p : A → Bool) (x : A) (ys : List A)
      → IsSorted ys
      → keep p (insert x ys) ≡ (if p x then insert x (keep p ys) else keep p ys)
  keep-insert p x [] s = refl
  keep-insert p x (y ∷ ys) s = elim (Bool-cases (order.less x y)) [
    | inl t ↦
        let first =
          insert-first x (keep p (y ∷ ys))
            (All-keep (λ z. order.less x z ≡ true) p (y ∷ ys) (t, All-less x y ys t s.0)) in
        elim (Bool-cases (p x)) [ inl px ↦ rw t (rw px (sym first)) | inr nx ↦ rw t (rw nx refl) ]
    | inr f ↦ elim (Bool-cases (p y)) [
      | inl py ↦ elim (Bool-cases (p x)) [
        | inl px ↦ rw (f, py) (rw (f, px) (ap (λ l. y ∷ l) (keep-insert p x ys s.1 ∙ rw px refl)))
        | inr nx ↦ rw (f, py) (rw nx (ap (λ l. y ∷ l) (keep-insert p x ys s.1 ∙ rw nx refl)))
      ]
      | inr ny ↦ rw (f, ny) (keep-insert p x ys s.1)
    ]
  ]

  -- A test may be applied before the rows are sorted or after it.
  pub keep-sort :
      (p : A → Bool) (xs : List A) → Pairwise IsComparable xs → sort (keep p xs) ≡ keep p (sort xs)
  keep-sort p [] h = refl
  keep-sort p (x ∷ xs) h =
      let s = sort-IsSorted xs h.1 in
      elim (Bool-cases (p x)) [
        | inl px ↦
            rw px
              (ap (insert x) (keep-sort p xs h.1) ∙ sym (keep-insert p x (sort xs) s ∙ rw px refl))
        | inr nx ↦ rw nx (keep-sort p xs h.1 ∙ sym (keep-insert p x (sort xs) s ∙ rw nx refl))
      ]

-- Sorting neither drops nor adds a row.
module _ {A : Type 0} (order : StrictOrder A) where
  Member-insert : (x y : A) (ys : List A) → Member x (insert order y ys) ↔ Member x (y ∷ ys)
  Member-insert x y [] = ((λ m. m), (λ m. m))
  Member-insert x y (z ∷ zs) = elim (Bool-cases (order.less y z)) [
    | inl t ↦ rw t ((λ m. m), (λ m. m))
    | inr f ↦
        let ih = Member-insert x y zs in
        rw f (
          (λ m. elim m [
            | inl e ↦ inr (inl e)
            | inr n ↦ elim (ih.0 n) [ inl e ↦ inl e | inr k ↦ inr (inr k) ]
          ]),
          (λ m. elim m [
            | inl e ↦ inr (ih.1 (inl e))
            | inr n ↦ elim n [ inl e ↦ inl e | inr k ↦ inr (ih.1 (inr k)) ]
          ]),
        )
  ]

  pub Member-sort : (x : A) (xs : List A) → Member x (sort order xs) ↔ Member x xs
  Member-sort x [] = ((λ m. m), (λ m. m))
  Member-sort x (y ∷ ys) =
      let ih = Member-sort x ys in
      let here = Member-insert x y (sort order ys) in
      (
        (λ m. elim (here.0 m) [ inl e ↦ inl e | inr n ↦ inr (ih.0 n) ]),
        (λ m. elim m [ inl e ↦ here.1 (inl e) | inr n ↦ here.1 (inr (ih.1 n)) ]),
      )
