-- ===== src/CiscoIos/Validator.antt =====
-- services/api/netops_api/validators/cisco_ios_ipsec.py and models.py. The explanations are in
-- `explanation`; a mapping from identifiers to identifiers is a function into options.
use netops_copilot.Prelude.{
  ℕ, String, ◌==◌, nat_eq, list_eq, Option, none, some, List, [], ◌∷◌, ◌++◌, map, if◌then◌else◌,
}
use netops_copilot.Prelude.Lists.{keep}
use netops_copilot.Prelude.Text.{Text}
use netops_copilot.CiscoIos.Models.{
  LifetimeUnit, seconds, Phase2LifetimeSetting, IpsecAssociation, identifier, effective_override,
  CiscoIosConfig, global_lifetime,
}

pub data ValidatorStatus : Type 0 where
  pass fail warn insufficient_context not_applicable : ValidatorStatus

pub data FindingSeverity : Type 0 where
  info warning error : FindingSeverity

pub record EvidenceLocation : Type 0 where
  pub document : String
  pub line_number : ℕ
  pub role : String

pub record ValidatorResult : Type 0 where
  pub rule_id : String
  pub rule_version : String
  pub status : ValidatorStatus
  pub severity : FindingSeverity
  pub association_id : Option Text
  pub unit : LifetimeUnit
  pub observed_value : Option ℕ
  pub expected_value : Option ℕ
  pub evidence : List EvidenceLocation
  pub explanation : String

-- `_EffectiveLifetime`
pub record EffectiveLifetime : Type 0 where
  pub value : Option ℕ
  pub source : Option Phase2LifetimeSetting

abbrev pub no_lifetime : EffectiveLifetime
no_lifetime = record { value = none; source = none }

abbrev pub from_setting : Phase2LifetimeSetting → EffectiveLifetime
from_setting s = record { value = some s.value; source = some s }

-- The override of an association, or else the inherited setting.
abbrev pub first_of :
    Option Phase2LifetimeSetting → Option Phase2LifetimeSetting → EffectiveLifetime
first_of (some override) inherited = from_setting override
first_of none (some inherited) = from_setting inherited
first_of none none = no_lifetime

-- `_effective_lifetime`
unfoldable pub effective_lifetime :
    CiscoIosConfig → IpsecAssociation → LifetimeUnit → EffectiveLifetime
effective_lifetime configuration association unit =
    first_of (effective_override association unit) (global_lifetime configuration unit)

abbrev pub located : String → String → Option Phase2LifetimeSetting → List EvidenceLocation
located document role none = []
located document role (some s) =
    record { document = document; line_number = s.line_number; role = role } ∷ []

-- `_evidence`
unfoldable pub evidence_of : EffectiveLifetime → Option EffectiveLifetime → List EvidenceLocation
evidence_of local none = located "local" "observed_phase2_lifetime" local.source
evidence_of local (some peer) =
    located "local" "observed_phase2_lifetime" local.source
    ++ located "peer" "expected_phase2_lifetime" peer.source

-- `_result`
abbrev pub result :
    ValidatorStatus
    → FindingSeverity
    → Option IpsecAssociation
    → EffectiveLifetime
    → Option EffectiveLifetime
    → String
    → ValidatorResult
result status severity association local peer explanation = record {
  rule_id = "cisco_ios.ipsec.phase2_lifetime_seconds";
  rule_version = "1.0.0";
  status = status;
  severity = severity;
  association_id = elim association [ none ↦ none | some a ↦ some (identifier a) ];
  unit = seconds;
  observed_value = local.value;
  expected_value = elim peer [ none ↦ none | some p ↦ p.value ];
  evidence = evidence_of local peer;
  explanation = explanation;
}

-- `matches[0] if len(matches) == 1 else None`
abbrev pub the_only {ℓ} : {A : Type ℓ} → List A → Option A
the_only (x ∷ []) = some x
the_only _ = none

-- `_peer_association`
unfoldable pub peer_association :
    IpsecAssociation → CiscoIosConfig → Option (Text → Option Text) → Option IpsecAssociation
peer_association local peer_config none = none
peer_association local peer_config (some association_map) =
    elim (association_map (identifier local)) [
      | none ↦ none
      | some peer_identifier ↦ the_only (
          keep (λ (a : IpsecAssociation). identifier a == peer_identifier)
            peer_config.ipsec_associations)
    ]

-- The two lifetimes of a pair of associations.
unfoldable pub compare_lifetimes :
    IpsecAssociation → EffectiveLifetime → EffectiveLifetime → ValidatorResult
compare_lifetimes association local peer = elim local.value [
  | none ↦
      result insufficient_context warning (some association) local (some peer)
        "An explicit Phase 2 seconds lifetime is missing on one side; IOS platform defaults are not inferred by this validator."
  | some observed ↦ elim peer.value [
    | none ↦
        result insufficient_context warning (some association) local (some peer)
          "An explicit Phase 2 seconds lifetime is missing on one side; IOS platform defaults are not inferred by this validator."
    | some expected ↦
        if observed == expected
        then result pass info (some association) local (some peer)
            "Local and peer Phase 2 seconds lifetimes match."
        else result fail error (some association) local (some peer)
            "Local and peer Phase 2 seconds lifetimes do not match."
  ]
]

-- The result for an association, when the peer's configuration was supplied, by the association
-- that it is paired with.
unfoldable pub compare_paired :
    CiscoIosConfig → CiscoIosConfig → IpsecAssociation → Option IpsecAssociation → ValidatorResult
compare_paired local_config peer_config association none =
    result insufficient_context warning (some association)
      (effective_lifetime local_config association seconds) none
      "Peer configuration was supplied, but this IPsec association could not be paired through an explicit verified association."
compare_paired local_config peer_config association (some peer) =
    compare_lifetimes association (effective_lifetime local_config association seconds)
      (effective_lifetime peer_config peer seconds)

-- The body of the loop of `validate_phase2_lifetime`.
unfoldable pub validate_association :
    CiscoIosConfig
    → Option CiscoIosConfig
    → Option (Text → Option Text)
    → IpsecAssociation
    → ValidatorResult
validate_association local_config none association_map association =
    result insufficient_context warning (some association)
      (effective_lifetime local_config association seconds) none
      "Peer configuration was not supplied; the local Phase 2 lifetime cannot be compared."
validate_association local_config (some peer_config) association_map association =
    compare_paired local_config peer_config association
      (peer_association association peer_config association_map)

-- `validate_phase2_lifetime`
unfoldable pub validate_phase2_lifetime :
    CiscoIosConfig → Option CiscoIosConfig → Option (Text → Option Text) → List ValidatorResult
validate_phase2_lifetime local_config peer_config association_map =
    elim local_config.ipsec_associations [
      | [] ↦
          result not_applicable info none no_lifetime none
            "No Cisco IOS IPsec crypto map or IPsec profile was found."
          ∷ []
      | association ∷ rest ↦
          map (validate_association local_config peer_config association_map) (association ∷ rest)
    ]
