-- ===== src/CiscoIos/Examples.antt =====
-- The parser and the validator of services/api/netops_api at a small configuration.
use netops_copilot.Prelude.{
  ℕ, leb, ◌-◌, ◌==◌, nat_eq, ◌≡◌, refl, ◌⊎◌, ◌&&◌, ◌||◌, Bool, Option, none, some, [], ◌∷◌, ◌++◌,
  if◌then◌else◌,
}
use netops_copilot.Prelude.Lists.{All, length}
use netops_copilot.Prelude.Text.{Text, codes, is_space, strip}
use netops_copilot.Errors.{ok}
use netops_copilot.CiscoIos.Models.{
  CiscoIosConfig, IpsecAssociation, Phase2LifetimeSetting, crypto_map, seconds,
}
use netops_copilot.CiscoIos.Patterns.{
  is_like, literal, unit_and_value, global_lifetime_match, set_lifetime_match, profile_match,
  peer_match, crypto_map_match, is_lifetime_prefix, lower, unit_of,
}
use netops_copilot.CiscoIos.Parser.{
  splitlines, to_source_line, int_of_digits, positive_int, parse_lifetime, top_level_declaration,
}
use netops_copilot.CiscoIos.Lines.{
  top_level_line, block_line, parse_line, parse_lines, parse_cisco_ios_config,
}
use netops_copilot.CiscoIos.Validator.{pass, fail, insufficient_context, validate_association}
use netops_copilot.CiscoIos.Blocks.{IsBlock, IsSetting, IsWarning}
use netops_copilot.CiscoIos.Grounded.{IsNumbered, parse-IsGrounded}
use netops_copilot.CiscoIos.Verdicts.{AreCompared, validate_association-verdict}

-- The digits and letters of ASCII.
abbrev ascii_digit : ℕ → Option ℕ
ascii_digit c = if leb b'0' c && leb c b'9' then some (c - b'0') else none

abbrev ascii_letter : ℕ → Bool
ascii_letter c =
    (leb b'0' c && leb c b'9') || (leb b'a' c && leb c b'z') || (leb b'A' c && leb c b'Z')

abbrev text : Text
text =
    codes "crypto map VPN 10"
    ++ 10 ∷ codes " set security-association lifetime seconds 60"
    ++ 10 ∷ codes " set peer gw"

abbrev vpn : IpsecAssociation
vpn = record {
  kind = crypto_map;
  name = codes "VPN";
  declaration_line = 1;
  sequence = some 10;
  peer_addresses = record { value = codes "gw"; line_number = 3 } ∷ [];
  lifetime_settings = record { unit = seconds; value = 60; line_number = 2 } ∷ [];
}

abbrev config : CiscoIosConfig
config = record {
  source_lines =
      record {
        number = 1;
        text = codes "crypto map VPN 10";
        indentation = 0;
        tokens = codes "crypto" ∷ codes "map" ∷ codes "VPN" ∷ codes "10" ∷ [];
      }
      ∷ record {
        number = 2;
        text = codes " set security-association lifetime seconds 60";
        indentation = 1;
        tokens =
            codes "set"
            ∷ codes "security-association"
            ∷ codes "lifetime"
            ∷ codes "seconds"
            ∷ codes "60"
            ∷ [];
      }
      ∷ record {
        number = 3;
        text = codes " set peer gw";
        indentation = 1;
        tokens = codes "set" ∷ codes "peer" ∷ codes "gw" ∷ [];
      }
      ∷ [];
  global_phase2_lifetimes = [];
  ipsec_associations = vpn ∷ [];
  warnings = [];
}

text_parsed : parse_cisco_ios_config ascii_digit ascii_letter (λ t. t) text ≡ ok config
unfolding is_space strip is_like literal unit_and_value global_lifetime_match set_lifetime_match
    profile_match peer_match crypto_map_match is_lifetime_prefix lower unit_of splitlines
    to_source_line int_of_digits positive_int parse_lifetime top_level_declaration top_level_line
    block_line parse_line parse_lines parse_cisco_ios_config
text_parsed = refl

parse-IsGrounded_example :
    IsNumbered 1 config.source_lines
    × All (IsWarning (length config.source_lines)) config.warnings
    × All (IsSetting 0 (length config.source_lines)) config.global_phase2_lifetimes
    × All (IsBlock (length config.source_lines)) config.ipsec_associations
parse-IsGrounded_example =
    parse-IsGrounded ascii_digit ascii_letter (λ t. t) text config text_parsed

-- The mapping that pairs the association with itself.
abbrev same_name : Text → Option Text
same_name t = some t

validate_association-verdict_example :
    ((s : Phase2LifetimeSetting) × (t : Phase2LifetimeSetting) × AreCompared config
        (some config)
        (some same_name)
        vpn
        s
        t
      × ((validate_association config (some config) (some same_name) vpn).status
          ≡ (if s.value == t.value then pass else fail)))
    ⊎ (((s t : Phase2LifetimeSetting)
          → AreCompared config (some config) (some same_name) vpn s t
          → ⊥)
        × ((validate_association config (some config) (some same_name) vpn).status
            ≡ insufficient_context))
validate_association-verdict_example =
    validate_association-verdict config (some same_name) vpn (some config)
