-- ===== src/CiscoIos/Grounded.antt =====
-- Every line that services/api/netops_api/parsers/cisco_ios/parser.py refers to.
use netops_copilot.Prelude.{
  ℕ, suc, ◌+◌, ◌==◌, nat_eq, ◌≡◌, refl, sym, ap, subst, inl, inr, Bool, Bool-cases, ◌||◌, Option,
  none, some, List, [], ◌∷◌, arith,
}
use netops_copilot.Prelude.Lists.{All, length}
use netops_copilot.Prelude.Text.{Text, codes, strip}
use netops_copilot.Errors.{ok, >>=-eq-ok}
use netops_copilot.CiscoIos.Models.{SourceLine, IpsecAssociation, CiscoIosConfig}
use netops_copilot.CiscoIos.Patterns.{
  global_lifetime_match, set_lifetime_match, peer_match, is_lifetime_prefix, profile_match,
  crypto_map_match,
}
use netops_copilot.CiscoIos.Parser.{
  splitlines, to_source_line, number_lines, ParserState, start, close, optional_list,
  parse_lifetime, top_level_declaration,
}
use netops_copilot.CiscoIos.Lines.{
  add_global, add_setting, add_peer, is_some, is_skipped, top_level_line, block_line, parse_line,
  parse_lines, parse_cisco_ios_config,
}
use netops_copilot.CiscoIos.Blocks.{
  IsBlock, IsSetting, IsWarning, IsGrounded, later, close-IsGrounded, parse_lifetime-IsOutcome,
  declare-IsBlock, add_global-IsGrounded, add_setting-IsGrounded, add_peer-IsGrounded,
}

-- The lines are numbered from `n`.
abbrev pub IsNumbered : ℕ → List SourceLine → Type 0
IsNumbered n [] = Unit
IsNumbered n (l ∷ ls) = (l.number ≡ n) × IsNumbered (suc n) ls

number_lines-IsNumbered : (n : ℕ) (ls : List Text) → IsNumbered n (number_lines n ls)
unfolding to_source_line
number_lines-IsNumbered n [] = tt
number_lines-IsNumbered n (l ∷ ls) = (refl, number_lines-IsNumbered (suc n) ls)

length-number_lines : (n : ℕ) (ls : List Text) → length (number_lines n ls) ≡ length ls
length-number_lines n [] = refl
length-number_lines n (l ∷ ls) = ap suc (length-number_lines (suc n) ls)

grounded-eq : (n : ℕ) (a b : ParserState) → ok a ≡ ok b → IsGrounded n a → IsGrounded n b
grounded-eq n a b h g = let e : a ≡ b = cc h in subst (IsGrounded n) e g

module _ (digit : ℕ → Option ℕ) (is_alphanumeric : ℕ → Bool) (repr : Text → Text) where
  top_level-IsGrounded :
      (n : ℕ) (command : Text) (st next : ParserState)
      → IsGrounded n st
      → top_level_line digit is_alphanumeric repr (suc n) command st ≡ ok next
      → IsGrounded (suc n) next
  unfolding top_level_line top_level_declaration
  top_level-IsGrounded n command st next g h =
      let m = global_lifetime_match command in
      let prefix = is_lifetime_prefix digit is_alphanumeric command in
      let later_st = later n st g in
      elim (Bool-cases (is_some m || prefix)) [
        | inl t ↦
            let e = rw t at h in
            let (r, p, q) =
              >>=-eq-ok
                (parse_lifetime digit is_alphanumeric repr (suc n) (codes "global configuration") m)
                _ e in
            grounded-eq (suc n) (add_global st r) next q (
              add_global-IsGrounded digit is_alphanumeric repr n st r later_st (
                parse_lifetime-IsOutcome digit is_alphanumeric repr (suc n)
                  (codes "global configuration") m r p))
        | inr f ↦
            let e = rw f at h in
            let (b, p, q) =
              >>=-eq-ok (top_level_declaration digit is_alphanumeric repr command (suc n)) _ e in
            grounded-eq (suc n) (record st { current = b }) next q
              (record {
                warnings = later_st.warnings;
                global_lifetimes = later_st.global_lifetimes;
                associations = later_st.associations;
                current =
                    declare-IsBlock digit is_alphanumeric repr n (profile_match command)
                      (crypto_map_match digit is_alphanumeric command) b p;
              })
      ]

  block-IsGrounded :
      (n : ℕ) (command : Text) (st next : ParserState) (current : Option IpsecAssociation)
      → IsGrounded n st
      → All (IsBlock n) (optional_list current)
      → block_line digit is_alphanumeric repr (suc n) command st current ≡ ok next
      → IsGrounded (suc n) next
  unfolding block_line
  block-IsGrounded n command st next none g b h = grounded-eq (suc n) st next h (later n st g)
  block-IsGrounded n command st next (some a) g b h =
      let m = set_lifetime_match command in
      let prefix = is_lifetime_prefix digit is_alphanumeric command in
      elim (Bool-cases (is_some m || prefix)) [
        | inl t ↦
            let e = rw t at h in
            let (r, p, q) =
              >>=-eq-ok (parse_lifetime digit is_alphanumeric repr (suc n) a.name m) _ e in
            grounded-eq (suc n) (add_setting st a r) next q (
              add_setting-IsGrounded digit is_alphanumeric repr n st a r g b.0
                (parse_lifetime-IsOutcome digit is_alphanumeric repr (suc n) a.name m r p))
        | inr f ↦
            let e = rw f at h in
            grounded-eq (suc n) (add_peer (suc n) st a (peer_match command)) next e
              (add_peer-IsGrounded digit is_alphanumeric repr n st a (peer_match command) g b.0)
      ]

  line-IsGrounded :
      (n : ℕ) (raw : Text) (st next : ParserState)
      → IsGrounded n st
      → parse_line digit is_alphanumeric repr st (to_source_line (suc n) raw) ≡ ok next
      → IsGrounded (suc n) next
  unfolding parse_line to_source_line
  line-IsGrounded n raw st next g h =
      let line = to_source_line (suc n) raw in
      let command = strip line.text in
      elim (Bool-cases (is_skipped command)) [
        | inl t ↦ let e = rw t at h in grounded-eq (suc n) st next e (later n st g)
        | inr f ↦
            let e = rw f at h in
            elim (Bool-cases (line.indentation == 0)) [
              | inl t ↦
                  let d = rw t at e in
                  top_level-IsGrounded n command (close st) next (close-IsGrounded n st g) d
              | inr i ↦
                  let d = rw i at e in block-IsGrounded n command st next st.current g g.current d
            ]
      ]

  lines-IsGrounded :
      (n : ℕ) (raws : List Text) (st next : ParserState)
      → IsGrounded n st
      → parse_lines digit is_alphanumeric repr st (number_lines (suc n) raws) ≡ ok next
      → IsGrounded (n + length raws) next
  unfolding parse_lines
  lines-IsGrounded n [] st next g h =
      let zero_more : n ≡ n + 0 = omega arith in
      subst (λ k. IsGrounded k next) zero_more (grounded-eq n st next h g)
  lines-IsGrounded n (raw ∷ raws) st next g h =
      let (mid, p, q) =
        >>=-eq-ok (parse_line digit is_alphanumeric repr st (to_source_line (suc n) raw)) _ h in
      let more : suc n + length raws ≡ n + suc (length raws) = omega arith in
      subst (λ k. IsGrounded k next) more
        (lines-IsGrounded (suc n) raws mid next (line-IsGrounded n raw st mid g p) q)

  -- In a configuration that the parser returns, the source lines are numbered from 1, and every
  -- warning, block, setting and peer carries the number of one of them: those of a block stand
  -- after its declaration. Every lifetime is positive.
  pub parse-IsGrounded :
      (configuration : Text) (c : CiscoIosConfig)
      → parse_cisco_ios_config digit is_alphanumeric repr configuration ≡ ok c
      → IsNumbered 1 c.source_lines
        × All (IsWarning (length c.source_lines)) c.warnings
        × All (IsSetting 0 (length c.source_lines)) c.global_phase2_lifetimes
        × All (IsBlock (length c.source_lines)) c.ipsec_associations
  unfolding parse_cisco_ios_config
  parse-IsGrounded configuration c h =
      let raws = splitlines configuration in
      let lines = number_lines 1 raws in
      let (last, p, q) = >>=-eq-ok (parse_lines digit is_alphanumeric repr start lines) _ h in
      let opened : IsGrounded 0 start = record {
        warnings = tt;
        global_lifetimes = tt;
        associations = tt;
        current = tt;
      } in
      let no_more : 0 + length raws ≡ length raws = omega arith in
      let read =
        subst (λ k. IsGrounded k last) no_more (lines-IsGrounded 0 raws start last opened p) in
      let g = close-IsGrounded (length raws) last read in
      let same : length raws ≡ length lines = sym (length-number_lines 1 raws) in
      let result : CiscoIosConfig = record {
        source_lines = lines;
        global_phase2_lifetimes = last.global_lifetimes;
        ipsec_associations = (close last).associations;
        warnings = last.warnings;
      } in
      let e : result ≡ c = cc q in
      subst
        (λ (d : CiscoIosConfig).
          IsNumbered 1 d.source_lines
          × All (IsWarning (length d.source_lines)) d.warnings
          × All (IsSetting 0 (length d.source_lines)) d.global_phase2_lifetimes
          × All (IsBlock (length d.source_lines)) d.ipsec_associations)
        e
        (
          number_lines-IsNumbered 1 raws,
          subst (λ k. All (IsWarning k) last.warnings) same g.warnings,
          subst (λ k. All (IsSetting 0 k) last.global_lifetimes) same g.global_lifetimes,
          subst (λ k. All (IsBlock k) (close last).associations) same g.associations,
        )
