-- ===== src/CiscoIos/Pairing.antt =====
-- The association of the peer, and the verdict on a pair, of
-- services/api/netops_api/validators/cisco_ios_ipsec.py.
use netops_copilot.Prelude.{
  ◌==◌, nat_eq, list_eq, list_beq_iff, ◌≡◌, refl, sym, ap, subst, ◌∙◌, ◌⊎◌, inl, inr, Bool,
  Bool-cases, Option-cases, Option, none, some, List, [], ◌∷◌,
}
use netops_copilot.Prelude.Lists.{All, keep, List-cases}
use netops_copilot.Prelude.Text.{Text}
use netops_copilot.CiscoIos.Models.{IpsecAssociation, identifier, CiscoIosConfig}
use netops_copilot.CiscoIos.Validator.{the_only, peer_association}

-- `a` is the only association with an identifier.
abbrev pub IsOnly : Text → List IpsecAssociation → IpsecAssociation → Type 0
IsOnly id [] a = ⊥
IsOnly id (x ∷ xs) a =
    ((a ≡ x) × (identifier x ≡ id) × All (λ (y : IpsecAssociation). identifier y ≡ id → ⊥) xs)
    ⊎ ((identifier x ≡ id → ⊥) × IsOnly id xs a)

module _ (id : Text) where
  abbrev named : IpsecAssociation → Bool
  named a = identifier a == id

  keep-others :
      (xs : List IpsecAssociation)
      → All (λ (y : IpsecAssociation). identifier y ≡ id → ⊥) xs
      → keep named xs ≡ []
  keep-others [] h = refl
  keep-others (x ∷ xs) h = elim (Bool-cases (named x)) [
    | inl t ↦ absurd (h.0 ((list_beq_iff (identifier x) id).0 t))
    | inr f ↦ rw f (keep-others xs h.1)
  ]

  others-keep :
      (xs : List IpsecAssociation)
      → keep named xs ≡ []
      → All (λ (y : IpsecAssociation). identifier y ≡ id → ⊥) xs
  others-keep [] h = tt
  others-keep (x ∷ xs) h = elim (Bool-cases (named x)) [
    | inl t ↦ let e = rw t at h in absurd (cc e)
    | inr f ↦
        let e = rw f at h in
        ((λ p. let t = (list_beq_iff (identifier x) id).1 p in cc (t, f)), others-keep xs e)
  ]

  keep-IsOnly :
      (xs : List IpsecAssociation) (a : IpsecAssociation) → IsOnly id xs a → keep named xs ≡ a ∷ []
  keep-IsOnly [] a h = absurd h
  keep-IsOnly (x ∷ xs) a (inl h) =
      rw ((list_beq_iff (identifier x) id).1 h.1)
        (ap (λ l. x ∷ l) (keep-others xs h.2) ∙ ap (λ y. y ∷ []) (sym h.0))
  keep-IsOnly (x ∷ xs) a (inr h) = elim (Bool-cases (named x)) [
    | inl t ↦ absurd (h.0 ((list_beq_iff (identifier x) id).0 t))
    | inr f ↦ rw f (keep-IsOnly xs a h.1)
  ]

  IsOnly-keep :
      (xs : List IpsecAssociation) (a : IpsecAssociation) → keep named xs ≡ a ∷ [] → IsOnly id xs a
  IsOnly-keep [] a h = absurd (cc h)
  IsOnly-keep (x ∷ xs) a h = elim (Bool-cases (named x)) [
    | inl t ↦
        let e = rw t at h in inl (cc e, (list_beq_iff (identifier x) id).0 t, others-keep xs (cc e))
    | inr f ↦
        let e = rw f at h in
        inr ((λ p. let t = (list_beq_iff (identifier x) id).1 p in cc (t, f)), IsOnly-keep xs a e)
  ]

  IsOnly-cases :
      (xs : List IpsecAssociation)
      → ((a : IpsecAssociation) × (the_only (keep named xs) ≡ some a) × IsOnly id xs a)
        ⊎ ((the_only (keep named xs) ≡ none) × ((a : IpsecAssociation) → IsOnly id xs a → ⊥))
  IsOnly-cases xs = elim (List-cases (keep named xs)) [
    | inl p ↦ inr (rw p refl, (λ a h. let q = sym p ∙ keep-IsOnly xs a h in cc q))
    | inr s ↦ elim s [
      | inl (a, p) ↦ inl (a, rw p refl, IsOnly-keep xs a p)
      | inr (a, b, rest, p) ↦ inr (rw p refl, (λ c h. let q = sym p ∙ keep-IsOnly xs c h in cc q))
    ]
  ]

-- The peer's association that the caller's mapping names.
abbrev pub IsPaired :
    IpsecAssociation → CiscoIosConfig → Option (Text → Option Text) → IpsecAssociation → Type 0
IsPaired local peer_config association_map peer =
    (m : Text → Option Text) × (id : Text) × (association_map ≡ some m)
    × (m (identifier local) ≡ some id)
    × IsOnly id peer_config.ipsec_associations peer

pub peer_association-cases :
    (local : IpsecAssociation) (c : CiscoIosConfig) (association_map : Option (Text → Option Text))
    → ((peer : IpsecAssociation) × (peer_association local c association_map ≡ some peer)
        × IsPaired local c association_map peer)
      ⊎ ((peer_association local c association_map ≡ none)
          × ((peer : IpsecAssociation) → IsPaired local c association_map peer → ⊥))
unfolding peer_association
peer_association-cases local c none = inr (refl, (λ peer h. let e = h.2 in cc e))
peer_association-cases local c (some m) = elim (Option-cases (m (identifier local))) [
  | inl p ↦ inr (
    rw p refl,
    (λ peer h.
        let (m2, id, e, f, only) = h in
        let same : m ≡ m2 = cc e in
        let bad = sym p ∙ ap (λ (g : Text → Option Text). g (identifier local)) same ∙ f in cc bad),
  )
  | inr (id, p) ↦ elim (IsOnly-cases id c.ipsec_associations) [
    | inl (a, q, only) ↦ inl (a, rw p q, (m, id, refl, p, only))
    | inr (q, no_only) ↦ inr (
      rw p q,
      (λ peer h.
          let (m2, id2, e, f, only) = h in
          let same : m ≡ m2 = cc e in
          let both = sym p ∙ ap (λ (g : Text → Option Text). g (identifier local)) same ∙ f in
          let same_id : id ≡ id2 = cc both in
          no_only peer (subst (λ i. IsOnly i c.ipsec_associations peer) (sym same_id) only)),
    )
  ]
]

-- An association is paired with one association at most.
pub IsPaired-unique :
    (local : IpsecAssociation) (c : CiscoIosConfig) (association_map : Option (Text → Option Text))
    (p q : IpsecAssociation)
    → IsPaired local c association_map p
    → IsPaired local c association_map q
    → p ≡ q
IsPaired-unique local c association_map p q (m, id, e, f, only) (n, id2, g, h, only2) =
    let maps = sym e ∙ g in
    let same : m ≡ n = cc maps in
    let ids = sym f ∙ ap (λ (k : Text → Option Text). k (identifier local)) same ∙ h in
    let same_id : id ≡ id2 = cc ids in
    let rows =
      sym (keep-IsOnly id c.ipsec_associations p only)
      ∙ keep-IsOnly id c.ipsec_associations q
          (subst (λ i. IsOnly i c.ipsec_associations q) (sym same_id) only2) in
    cc rows
