-- ===== src/CiscoIos/Verdicts.antt =====
-- The verdicts of `validate_phase2_lifetime` of
-- services/api/netops_api/validators/cisco_ios_ipsec.py.
use netops_copilot.Prelude.{
  ◌==◌, nat_eq, ◌≡◌, refl, sym, ap, subst, ◌∙◌, ◌⊎◌, inl, inr, Bool-cases, Option, none, some,
  if◌then◌else◌,
}
use netops_copilot.Prelude.Text.{Text}
use netops_copilot.CiscoIos.Models.{
  seconds, Phase2LifetimeSetting, IpsecAssociation, CiscoIosConfig,
}
use netops_copilot.CiscoIos.Validator.{
  ValidatorStatus, pass, fail, insufficient_context, ValidatorResult, EffectiveLifetime,
  no_lifetime, from_setting, effective_lifetime, peer_association, compare_lifetimes,
  validate_association, compare_paired,
}
use netops_copilot.CiscoIos.Lifetimes.{IsEffective, effective_lifetime-cases}
use netops_copilot.CiscoIos.Pairing.{IsPaired, IsPaired-unique, peer_association-cases}

-- The lifetimes in effect for an association and for the one that it is paired with.
abbrev pub AreCompared :
    CiscoIosConfig
    → Option CiscoIosConfig
    → Option (Text → Option Text)
    → IpsecAssociation
    → Phase2LifetimeSetting
    → Phase2LifetimeSetting
    → Type 0
AreCompared local_config peer_config association_map a s t =
    (c : CiscoIosConfig) × (peer : IpsecAssociation) × (peer_config ≡ some c)
    × IsPaired a c association_map peer
    × IsEffective local_config a s
    × IsEffective c peer t

abbrev status_of : ValidatorResult → ValidatorStatus
status_of r = r.status

compare-both :
    (a : IpsecAssociation) (s t : Phase2LifetimeSetting)
    → (compare_lifetimes a (from_setting s) (from_setting t)).status
      ≡ (if s.value == t.value then pass else fail)
unfolding compare_lifetimes
compare-both a s t = elim (Bool-cases (s.value == t.value)) [
  | inl p ↦ rw p refl
  | inr p ↦ rw p refl
]

compare-local :
    (a : IpsecAssociation) (peer : EffectiveLifetime)
    → (compare_lifetimes a no_lifetime peer).status ≡ insufficient_context
unfolding compare_lifetimes
compare-local a peer = refl

compare-peer :
    (a : IpsecAssociation) (s : Phase2LifetimeSetting)
    → (compare_lifetimes a (from_setting s) no_lifetime).status ≡ insufficient_context
unfolding compare_lifetimes
compare-peer a s = refl

module _ (local_config : CiscoIosConfig) (association_map : Option (Text → Option Text))
    (a : IpsecAssociation) where
  validate-paired :
      (c : CiscoIosConfig) (found : Option IpsecAssociation)
      → peer_association a c association_map ≡ found
      → validate_association local_config (some c) association_map a
        ≡ compare_paired local_config c a found
  unfolding validate_association
  validate-paired c found p = ap (compare_paired local_config c a) p

  unpaired-status :
      (c : CiscoIosConfig) → (compare_paired local_config c a none).status ≡ insufficient_context
  unfolding compare_paired
  unpaired-status c = refl

  -- The status of a pair of which at least one lifetime may be missing.
  paired-status :
      (c : CiscoIosConfig) (peer : IpsecAssociation) (x y : EffectiveLifetime)
      → effective_lifetime local_config a seconds ≡ x
      → effective_lifetime c peer seconds ≡ y
      → (compare_paired local_config c a (some peer)).status ≡ (compare_lifetimes a x y).status
  unfolding compare_paired
  paired-status c peer x y p q =
      ap (λ l. (compare_lifetimes a l (effective_lifetime c peer seconds)).status) p
      ∙ ap (λ l. (compare_lifetimes a x l).status) q

  not_supplied :
      (validate_association local_config none association_map a).status ≡ insufficient_context
  unfolding validate_association
  not_supplied = refl

  -- The peer's lifetime is that of the association that is found.
  IsEffective-peer :
      (c d : CiscoIosConfig) (peer other : IpsecAssociation)
      → some c ≡ some d
      → IsPaired a c association_map peer
      → IsPaired a d association_map other
      → (t : Phase2LifetimeSetting) → IsEffective d other t
      → IsEffective c peer t
  IsEffective-peer c d peer other e paired q t y =
      let same : c ≡ d = cc e in
      let q' : IsPaired a c association_map other =
        subst (λ z. IsPaired a z association_map other) (sym same) q in
      let y' : IsEffective c other t = subst (λ z. IsEffective z other t) (sym same) y in
      subst (λ z. IsEffective c z t) (IsPaired-unique a c association_map other peer q' paired) y'

  -- Each association gets exactly one of these: pass or fail, as its lifetime in effect and that of
  -- the one association of the supplied peer configuration that the given mapping names are equal
  -- or not; or, if there are no two such lifetimes, insufficient context.
  pub validate_association-verdict :
      (peer_config : Option CiscoIosConfig)
      → ((s : Phase2LifetimeSetting) × (t : Phase2LifetimeSetting) × AreCompared local_config
            peer_config association_map a s t
          × ((validate_association local_config peer_config association_map a).status
              ≡ (if s.value == t.value then pass else fail)))
        ⊎ (((s t : Phase2LifetimeSetting)
              → AreCompared local_config peer_config association_map a s t
              → ⊥)
            × ((validate_association local_config peer_config association_map a).status
                ≡ insufficient_context))
  validate_association-verdict none = inr ((λ s t h. let e = h.2 in cc e), not_supplied)
  validate_association-verdict (some c) = elim (peer_association-cases a c association_map) [
    | inr (p, unpaired) ↦ inr (
      (λ s t h.
          let (d, peer, e, paired, x, y) = h in
          let same : c ≡ d = cc e in
          unpaired peer (subst (λ z. IsPaired a z association_map peer) (sym same) paired)),
      ap status_of (validate-paired c none p) ∙ unpaired-status c,
    )
    | inl (peer, p, paired) ↦
        let start = ap status_of (validate-paired c (some peer) p) in
        let one =
          λ (d : CiscoIosConfig) (other : IpsecAssociation) (e : some c ≡ some d)
              (q : IsPaired a d association_map other) (t : Phase2LifetimeSetting)
              (y : IsEffective d other t).
            IsEffective-peer c d peer other e paired q t y in
        elim (effective_lifetime-cases local_config a) [
          | inr (es, no_local) ↦ inr (
            (λ s t h. let (d, other, e, q, x, y) = h in no_local s x),
            start
                ∙ paired-status c peer no_lifetime (effective_lifetime c peer seconds) es refl
                ∙ compare-local a (effective_lifetime c peer seconds),
          )
          | inl (s, es, in_effect) ↦ elim (effective_lifetime-cases c peer) [
            | inl (t, et, peer_effect) ↦ inl (
              s,
              t,
              (c, peer, refl, paired, in_effect, peer_effect),
              start
                  ∙ paired-status c peer (from_setting s) (from_setting t) es et
                  ∙ compare-both a s t,
            )
            | inr (et, no_peer) ↦ inr (
              (λ s2 t h. let (d, other, e, q, x, y) = h in no_peer t (one d other e q t y)),
              start ∙ paired-status c peer (from_setting s) no_lifetime es et ∙ compare-peer a s,
            )
          ]
        ]
  ]
