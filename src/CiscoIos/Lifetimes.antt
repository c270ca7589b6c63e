-- ===== src/CiscoIos/Lifetimes.antt =====
-- The lifetime that is in effect, and the verdict of
-- services/api/netops_api/validators/cisco_ios_ipsec.py on it.
use netops_copilot.Prelude.{
  ◌==◌, nat_eq, list_eq, dec_beq_iff, ◌≡◌, refl, ap, ◌∙◌, ◌⊎◌, inl, inr, Bool, Bool-cases, none,
  some, List, [], ◌∷◌, ◌++◌, reverse, if◌then◌else◌,
}
use mathlib.Core.List.{reverse-cons}
use netops_copilot.Prelude.Lists.{All, find}
use netops_copilot.CiscoIos.Models.{
  LifetimeUnit, seconds, LifetimeUnit-discrete, lifetime_unit_eq, Phase2LifetimeSetting,
  IpsecAssociation, last_setting, CiscoIosConfig,
}
use netops_copilot.CiscoIos.Validator.{no_lifetime, from_setting, effective_lifetime}

-- `s` is the last setting of the unit.
abbrev pub IsLast : LifetimeUnit → List Phase2LifetimeSetting → Phase2LifetimeSetting → Type 0
IsLast unit [] s = ⊥
IsLast unit (x ∷ xs) s =
    IsLast unit xs s
    ⊎ ((s ≡ x) × (x.unit ≡ unit) × All (λ (y : Phase2LifetimeSetting). y.unit ≡ unit → ⊥) xs)

abbrev pub HasNone : LifetimeUnit → List Phase2LifetimeSetting → Type 0
HasNone unit xs = All (λ (y : Phase2LifetimeSetting). y.unit ≡ unit → ⊥) xs

find-append {ℓ} :
    {A : Type ℓ} (p : A → Bool) (xs : List A) (y : A)
    → find p (xs ++ y ∷ [])
      ≡ elim (find p xs) [ none ↦ (if p y then some y else none) | some x ↦ some x ]
find-append p [] y = refl
find-append p (x ∷ xs) y = elim (Bool-cases (p x)) [
  | inl t ↦ rw t refl
  | inr f ↦ rw f (find-append p xs y)
]

-- The last setting of a unit, if there is one.
last_setting-cases :
    (unit : LifetimeUnit) (settings : List Phase2LifetimeSetting)
    → ((s : Phase2LifetimeSetting) × (last_setting unit settings ≡ some s) × IsLast unit settings s)
      ⊎ ((last_setting unit settings ≡ none) × HasNone unit settings)
unfolding last_setting LifetimeUnit-discrete
last_setting-cases unit [] = inr (refl, tt)
last_setting-cases unit (x ∷ xs) =
    let step =
      ap (find (λ (s : Phase2LifetimeSetting). s.unit == unit)) (reverse-cons x xs)
      ∙ find-append (λ (s : Phase2LifetimeSetting). s.unit == unit) (reverse xs) x in
    elim (last_setting-cases unit xs) [
      | inl (s, p, last) ↦ inl (s, step ∙ rw p refl, inl last)
      | inr (p, others) ↦ elim (Bool-cases (x.unit == unit)) [
        | inl t ↦ inl (
          x,
          step ∙ rw p (rw t refl),
          inr (refl, (dec_beq_iff LifetimeUnit-discrete x.unit unit).0 t, others),
        )
        | inr f ↦ inr (
          step ∙ rw p (rw f refl),
          ((λ e. let t = (dec_beq_iff LifetimeUnit-discrete x.unit unit).1 e in cc (t, f)), others),
        )
      ]
    ]

no-last :
    (unit : LifetimeUnit) (settings : List Phase2LifetimeSetting) (s : Phase2LifetimeSetting)
    → HasNone unit settings
    → IsLast unit settings s
    → ⊥
no-last unit [] s h l = l
no-last unit (x ∷ xs) s h (inl l) = no-last unit xs s h.1 l
no-last unit (x ∷ xs) s h (inr l) = h.0 l.1

-- The setting that is in effect for an association: its own last one, or else the last global one.
abbrev pub IsEffective : CiscoIosConfig → IpsecAssociation → Phase2LifetimeSetting → Type 0
IsEffective c a s =
    IsLast seconds a.lifetime_settings s
    ⊎ (HasNone seconds a.lifetime_settings × IsLast seconds c.global_phase2_lifetimes s)

pub effective_lifetime-cases :
    (c : CiscoIosConfig) (a : IpsecAssociation)
    → ((s : Phase2LifetimeSetting) × (effective_lifetime c a seconds ≡ from_setting s)
        × IsEffective c a s)
      ⊎ ((effective_lifetime c a seconds ≡ no_lifetime)
          × ((s : Phase2LifetimeSetting) → IsEffective c a s → ⊥))
unfolding effective_lifetime
effective_lifetime-cases c a = elim (last_setting-cases seconds a.lifetime_settings) [
  | inl (s, p, last) ↦ inl (s, rw p refl, inl last)
  | inr (p, others) ↦ elim (last_setting-cases seconds c.global_phase2_lifetimes) [
    | inl (s, q, last) ↦ inl (s, rw p (rw q refl), inr (others, last))
    | inr (q, no_global) ↦ inr (
      rw p (rw q refl),
      (λ s e. elim e [
        | inl last ↦ no-last seconds a.lifetime_settings s others last
        | inr last ↦ no-last seconds c.global_phase2_lifetimes s no_global last.1
      ]),
    )
  ]
]
