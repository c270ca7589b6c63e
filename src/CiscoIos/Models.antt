-- ===== src/CiscoIos/Models.antt =====
-- services/api/netops_api/parsers/cisco_ios/models.py
use netops_copilot.Prelude.{
  ℕ, String, Eq, dec_beq, dec_beq_iff, ◌==◌, Option, none, some, List, ◌++◌, reverse,
}
use netops_copilot.Prelude.Lists.{find}
use netops_copilot.Prelude.Text.{Text, codes}
use netops_copilot.Prelude.Decimal.{decimal}

pub data LifetimeUnit : Type 0 where
  seconds kilobytes : LifetimeUnit

unfoldable pub LifetimeUnit-discrete : Discrete LifetimeUnit
LifetimeUnit-discrete = hlevel

instance abbrev pub lifetime_unit_eq : Eq LifetimeUnit
unfolding LifetimeUnit-discrete
lifetime_unit_eq = record {
  beq = dec_beq LifetimeUnit-discrete;
  beq_iff = dec_beq_iff LifetimeUnit-discrete;
}

pub data AssociationKind : Type 0 where
  crypto_map ipsec_profile : AssociationKind

pub record SourceLine : Type 0 where
  pub number : ℕ
  pub text : Text
  pub indentation : ℕ
  pub tokens : List Text

pub record ParseWarning : Type 0 where
  pub code : String
  pub message : Text
  pub line_number : ℕ

pub record Phase2LifetimeSetting : Type 0 where
  pub unit : LifetimeUnit
  pub value : ℕ
  pub line_number : ℕ

pub record PeerAddress : Type 0 where
  pub value : Text
  pub line_number : ℕ

pub record IpsecAssociation : Type 0 where
  pub kind : AssociationKind
  pub name : Text
  pub declaration_line : ℕ
  pub sequence : Option ℕ
  pub peer_addresses : List PeerAddress
  pub lifetime_settings : List Phase2LifetimeSetting

abbrev pub kind_text : AssociationKind → Text
kind_text crypto_map = codes "crypto_map"
kind_text ipsec_profile = codes "ipsec_profile"

-- `IpsecAssociation.identifier`
unfoldable pub identifier : IpsecAssociation → Text
identifier a = elim a.sequence [
  | none ↦ kind_text a.kind ++ codes ":" ++ a.name
  | some n ↦ kind_text a.kind ++ codes ":" ++ a.name ++ codes ":" ++ decimal n
]

-- `for setting in reversed(settings): if setting.unit is unit: return setting`
unfoldable pub last_setting :
    LifetimeUnit → List Phase2LifetimeSetting → Option Phase2LifetimeSetting
unfolding LifetimeUnit-discrete
last_setting unit settings = find (λ (s : Phase2LifetimeSetting). s.unit == unit) (reverse settings)

-- `IpsecAssociation.effective_override`
abbrev pub effective_override : IpsecAssociation → LifetimeUnit → Option Phase2LifetimeSetting
effective_override a unit = last_setting unit a.lifetime_settings

pub record CiscoIosConfig : Type 0 where
  pub source_lines : List SourceLine
  pub global_phase2_lifetimes : List Phase2LifetimeSetting
  pub ipsec_associations : List IpsecAssociation
  pub warnings : List ParseWarning

-- `CiscoIosConfig.global_lifetime`
abbrev pub global_lifetime : CiscoIosConfig → LifetimeUnit → Option Phase2LifetimeSetting
global_lifetime c unit = last_setting unit c.global_phase2_lifetimes
