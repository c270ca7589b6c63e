-- ===== src/CiscoIos/Lines.antt =====
-- The loop of `parse_cisco_ios_config` of services/api/netops_api/parsers/cisco_ios/parser.py.
use netops_copilot.Prelude.{
  ℕ, ◌==◌, nat_eq, Bool, true, false, ◌||◌, Option, none, some, List, [], ◌∷◌, ◌++◌, if◌then◌else◌,
}
use netops_copilot.Prelude.Text.{Text, codes, strip}
use netops_copilot.Errors.{Result, ok, ◌>>=◌}
use netops_copilot.CiscoIos.Models.{
  SourceLine, ParseWarning, Phase2LifetimeSetting, IpsecAssociation, CiscoIosConfig,
}
use netops_copilot.CiscoIos.Patterns.{
  global_lifetime_match, set_lifetime_match, peer_match, is_lifetime_prefix,
}
use netops_copilot.CiscoIos.Parser.{
  splitlines, number_lines, ParserState, start, close, optional_list, parse_lifetime,
  top_level_declaration,
}

-- What `_parse_lifetime` returns and the warnings that it appends.
abbrev pub Outcome : Type 0
Outcome = Option Phase2LifetimeSetting × List ParseWarning

abbrev pub add_global : ParserState → Outcome → ParserState
add_global st (setting, warnings) = record st {
  warnings = st.warnings ++ warnings;
  global_lifetimes = st.global_lifetimes ++ optional_list setting;
}

abbrev pub add_setting : ParserState → IpsecAssociation → Outcome → ParserState
add_setting st a (setting, warnings) = record st {
  warnings = st.warnings ++ warnings;
  current = some (record a { lifetime_settings = a.lifetime_settings ++ optional_list setting });
}

abbrev pub add_peer : ℕ → ParserState → IpsecAssociation → Option Text → ParserState
add_peer line_number st a none = st
add_peer line_number st a (some peer) = record st {
  current = some (record a {
    peer_addresses = a.peer_addresses ++ record { value = peer; line_number = line_number } ∷ [];
  });
}

abbrev pub is_some {ℓ} : {A : Type ℓ} → Option A → Bool
is_some none = false
is_some (some _) = true

-- `not command or command.startswith("!")`
abbrev pub is_skipped : Text → Bool
is_skipped [] = true
is_skipped (c ∷ s) = c == b'!'

module _ (digit : ℕ → Option ℕ) (is_alphanumeric : ℕ → Bool) (repr : Text → Text) where
  -- A line with no indentation, once the block before it is closed.
  unfoldable pub top_level_line : ℕ → Text → ParserState → Result ParserState
  top_level_line number command st =
      let m = global_lifetime_match command in
      if is_some m || is_lifetime_prefix digit is_alphanumeric command
      then (parse_lifetime digit is_alphanumeric repr number (codes "global configuration") m
          >>= λ (r : Outcome). ok (add_global st r))
      else (top_level_declaration digit is_alphanumeric repr command number
          >>= λ (b : Option IpsecAssociation). ok (record st { current = b }))

  -- An indented line.
  unfoldable pub block_line : ℕ → Text → ParserState → Option IpsecAssociation → Result ParserState
  block_line number command st none = ok st
  block_line number command st (some a) =
      let m = set_lifetime_match command in
      if is_some m || is_lifetime_prefix digit is_alphanumeric command
      then (parse_lifetime digit is_alphanumeric repr number a.name m >>= λ (r : Outcome).
          ok (add_setting st a r))
      else ok (add_peer number st a (peer_match command))

  -- The body of the loop.
  unfoldable pub parse_line : ParserState → SourceLine → Result ParserState
  parse_line st line =
      let command = strip line.text in
      if is_skipped command
      then ok st
      else if line.indentation == 0
      then top_level_line line.number command (close st)
      else block_line line.number command st st.current

  unfoldable pub parse_lines : ParserState → List SourceLine → Result ParserState
  parse_lines st [] = ok st
  parse_lines st (line ∷ lines) = parse_line st line >>= λ next. parse_lines next lines

  -- `parse_cisco_ios_config`
  unfoldable pub parse_cisco_ios_config : Text → Result CiscoIosConfig
  parse_cisco_ios_config configuration =
      let source_lines = number_lines 1 (splitlines configuration) in
      parse_lines start source_lines >>= λ (last : ParserState).
      let st = close last in
      ok (record {
        source_lines = source_lines;
        global_phase2_lifetimes = st.global_lifetimes;
        ipsec_associations = st.associations;
        warnings = st.warnings;
      })
