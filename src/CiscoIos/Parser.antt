-- ===== src/CiscoIos/Parser.antt =====
-- services/api/netops_api/parsers/cisco_ios/parser.py. `repr` of a string, which a warning shows, is a
-- parameter, as the Unicode database is.
use netops_copilot.Prelude.{
  ℕ, suc, ◌-◌, ltb, leb, ◌==◌, nat_eq, list_eq, Bool, true, false, not, ◌&&◌, ◌||◌, Option, none,
  some, List, [], ◌∷◌, ◌++◌, if◌then◌else◌, reverse,
}
use netops_copilot.Prelude.Lists.{length, keep}
use netops_copilot.Prelude.Text.{Text, codes, is_space, drop_while, is_empty}
use netops_copilot.Errors.{value_error, Result, ok, ◌>>=◌, or_raise}
use netops_copilot.CiscoIos.Models.{
  LifetimeUnit, AssociationKind, crypto_map, ipsec_profile, SourceLine, ParseWarning,
  Phase2LifetimeSetting, IpsecAssociation,
}
use netops_copilot.CiscoIos.Patterns.{profile_match, crypto_map_match, read_digits, lower, unit_of}

-- The boundaries of `str.splitlines`.
abbrev pub is_line_break : ℕ → Bool
is_line_break c =
    (leb 10 c && leb c 13) || (leb 28 c && leb c 30) || c == 133 || c == 8232 || c == 8233

-- The lines of a text, the characters of the first one before `s` given, in reverse.
abbrev pub split_from : Text → Text → List Text
split_from line [] = if is_empty line then [] else reverse line ∷ []
split_from line (c ∷ []) = if is_line_break c then reverse line ∷ [] else reverse (c ∷ line) ∷ []
split_from line (c ∷ d ∷ s) = elim (is_line_break c) [
  | false ↦ split_from (c ∷ line) (d ∷ s)
  | true ↦ elim (c == 13 && d == 10) [
    | true ↦ reverse line ∷ split_from [] s
    | false ↦ reverse line ∷ split_from [] (d ∷ s)
  ]
]

-- `configuration.splitlines()`
unfoldable pub splitlines : Text → List Text
splitlines s = split_from [] s

-- `split()` at runs of white space, with the characters of the current token in reverse.
abbrev pub tokens_from : Text → Text → List Text
tokens_from token [] = if is_empty token then [] else reverse token ∷ []
tokens_from token (c ∷ s) = elim (is_space c) [
  | false ↦ tokens_from (c ∷ token) s
  | true ↦ if is_empty token then tokens_from [] s else reverse token ∷ tokens_from [] s
]

abbrev is_indent : ℕ → Bool
is_indent c = c == 32 || c == 9

abbrev is_newline : ℕ → Bool
is_newline c = c == 10 || c == 13

-- `_to_source_line`
unfoldable pub to_source_line : ℕ → Text → SourceLine
to_source_line number raw_line =
    let text = reverse (drop_while is_newline (reverse raw_line)) in
    let without_indent = drop_while is_indent text in
    record {
      number = number;
      text = text;
      indentation = length text - length without_indent;
      tokens = tokens_from [] without_indent;
    }

-- `enumerate(configuration.splitlines(), start=n)`
abbrev pub number_lines : ℕ → List Text → List SourceLine
number_lines n [] = []
number_lines n (l ∷ ls) = to_source_line n l ∷ number_lines (suc n) ls

-- What the loop of `parse_cisco_ios_config` keeps. An `_AssociationBuilder` has the fields of the
-- association that `freeze` makes of it.
pub record ParserState : Type 0 where
  pub warnings : List ParseWarning
  pub global_lifetimes : List Phase2LifetimeSetting
  pub associations : List IpsecAssociation
  pub current : Option IpsecAssociation

abbrev pub start : ParserState
start = record { warnings = []; global_lifetimes = []; associations = []; current = none }

abbrev pub optional_list {ℓ} : {A : Type ℓ} → Option A → List A
optional_list none = []
optional_list (some a) = a ∷ []

-- `associations.append(current.freeze())` and `current = None`, if there is a current one
abbrev pub close : ParserState → ParserState
close st = record st { associations = st.associations ++ optional_list st.current; current = none }

module _ (digit : ℕ → Option ℕ) (is_alphanumeric : ℕ → Bool) (repr : Text → Text) where
  -- `int(value)` of a number without a sign: more than 4300 digits are refused.
  unfoldable pub int_of_digits : Text → Option ℕ
  int_of_digits s =
      if ltb 4300 (length (keep (λ (c : ℕ). not (c == b'_')) s))
      then none
      else read_digits digit is_alphanumeric false 0 s

  -- `int(value_text)` if it is positive, and 0 if it is not or raises
  unfoldable pub positive_int : Text → ℕ
  unfolding int_of_digits
  positive_int [] = 0
  positive_int (c ∷ s) =
      if c == b'-'
      then 0
      else elim (int_of_digits (if c == b'+' then s else c ∷ s)) [ none ↦ 0 | some n ↦ n ]

  abbrev pub malformed : ℕ → ParseWarning
  malformed line_number = record {
    code = "cisco_ios.ipsec.malformed_phase2_lifetime";
    message = codes "IPsec Phase 2 lifetime command is malformed and was not applied.";
    line_number = line_number;
  }

  abbrev pub invalid : ℕ → Text → Text → Text → ParseWarning
  invalid line_number unit value command = record {
    code = "cisco_ios.ipsec.invalid_phase2_lifetime";
    message =
        codes "IPsec Phase 2 "
        ++ lower unit
        ++ codes " lifetime "
        ++ repr value
        ++ codes " in "
        ++ command
        ++ codes " must be a positive integer.";
    line_number = line_number;
  }

  -- `_parse_lifetime`: a warning or a setting
  unfoldable pub parse_lifetime :
      ℕ → Text → Option (Text × Text) → Result (Option Phase2LifetimeSetting × List ParseWarning)
  parse_lifetime line_number command none = ok (none, malformed line_number ∷ [])
  parse_lifetime line_number command (some (unit, value_text)) =
      let value = positive_int value_text in
      if value == 0
      then ok (none, invalid line_number unit value_text command ∷ [])
      else (or_raise (unit_of (lower unit)) (value_error "is not a valid LifetimeUnit")
          >>= λ (u : LifetimeUnit).
              ok (some (record { unit = u; value = value; line_number = line_number }), []))

  abbrev pub declared : AssociationKind → Text → ℕ → Option ℕ → IpsecAssociation
  declared kind name line_number sequence = record {
    kind = kind;
    name = name;
    declaration_line = line_number;
    sequence = sequence;
    peer_addresses = [];
    lifetime_settings = [];
  }

  abbrev pub declare_map : ℕ → Option (Text × Text) → Result (Option IpsecAssociation)
  declare_map line_number none = ok none
  declare_map line_number (some (name, number)) =
      or_raise (int_of_digits number) (value_error "Exceeds the limit (4300 digits)")
      >>= λ (sequence : ℕ). ok (some (declared crypto_map name line_number (some sequence)))

  abbrev pub declare : ℕ → Option Text → Option (Text × Text) → Result (Option IpsecAssociation)
  declare line_number (some name) m = ok (some (declared ipsec_profile name line_number none))
  declare line_number none m = declare_map line_number m

  -- `_top_level_declaration`
  unfoldable pub top_level_declaration : Text → ℕ → Result (Option IpsecAssociation)
  top_level_declaration command line_number =
      declare line_number (profile_match command) (crypto_map_match digit is_alphanumeric command)
