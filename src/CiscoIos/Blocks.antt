-- ===== src/CiscoIos/Blocks.antt =====
-- Line numbers and values in what services/api/netops_api/parsers/cisco_ios/parser.py returns.
use netops_copilot.Prelude.{
  ℕ, suc, ◌≤◌, ◌<◌, ◌==◌, nat_eq, ◌≡◌, refl, subst, inl, inr, Bool, Bool-cases, Option, none, some,
  List, [], ◌∷◌, ◌++◌, arith,
}
use netops_copilot.Prelude.Lists.{All, All-map}
use netops_copilot.Prelude.Text.{Text}
use netops_copilot.Errors.{value_error, ok, >>=-eq-ok, or_raise}
use netops_copilot.CiscoIos.Models.{
  crypto_map, ipsec_profile, ParseWarning, Phase2LifetimeSetting, PeerAddress, IpsecAssociation,
}
use netops_copilot.CiscoIos.Patterns.{lower, unit_of}
use netops_copilot.CiscoIos.Parser.{
  ParserState, close, optional_list, parse_lifetime, positive_int, int_of_digits, malformed,
  invalid, declare, declared,
}
use netops_copilot.CiscoIos.Lines.{Outcome, add_global, add_setting, add_peer}

-- A line after `low` and no later than `high`.
abbrev pub IsWithin : ℕ → ℕ → ℕ → Type 0
IsWithin low high n = (low < n) × (n ≤ high)

-- A setting is positive and stands after `low`.
abbrev pub IsSetting : ℕ → ℕ → Phase2LifetimeSetting → Type 0
IsSetting low high s = (0 < s.value) × IsWithin low high s.line_number

-- What a block declares stands after its first line.
abbrev pub IsBlock : ℕ → IpsecAssociation → Type 0
IsBlock high a =
    IsWithin 0 high a.declaration_line
    × All (IsSetting a.declaration_line high) a.lifetime_settings
    × All (λ (p : PeerAddress). IsWithin a.declaration_line high p.line_number) a.peer_addresses

abbrev pub IsWarning : ℕ → ParseWarning → Type 0
IsWarning high w = IsWithin 0 high w.line_number

-- A result of parsing no more than `high` lines.
pub record IsGrounded (high : ℕ) (st : ParserState) : Type 0 where
  pub warnings : All (IsWarning high) st.warnings
  pub global_lifetimes : All (IsSetting 0 high) st.global_lifetimes
  pub associations : All (IsBlock high) st.associations
  pub current : All (IsBlock high) (optional_list st.current)

All-append {ℓ κ} :
    {A : Type ℓ} (P : A → Type κ) (xs ys : List A) → All P xs → All P ys → All P (xs ++ ys)
All-append P [] ys h k = k
All-append P (x ∷ xs) ys h k = (h.0, All-append P xs ys h.1 k)

later-IsWithin : (low n : ℕ) (m : ℕ) → IsWithin low n m → IsWithin low (suc n) m
later-IsWithin low n m h = (h.0, omega (arith, h.1))

later-IsSetting :
    (low n : ℕ) (s : Phase2LifetimeSetting) → IsSetting low n s → IsSetting low (suc n) s
later-IsSetting low n s h = (h.0, later-IsWithin low n s.line_number h.1)

later-IsBlock : (n : ℕ) (a : IpsecAssociation) → IsBlock n a → IsBlock (suc n) a
later-IsBlock n a h = (
  later-IsWithin 0 n a.declaration_line h.0,
  All-map (later-IsSetting a.declaration_line n) a.lifetime_settings h.1,
  All-map (λ (p : PeerAddress). later-IsWithin a.declaration_line n p.line_number) a.peer_addresses
      h.2,
)

-- One line more is no harm.
pub later : (n : ℕ) (st : ParserState) → IsGrounded n st → IsGrounded (suc n) st
later n st h = record {
  warnings =
      All-map (λ (w : ParseWarning). later-IsWithin 0 n w.line_number) st.warnings h.warnings;
  global_lifetimes = All-map (later-IsSetting 0 n) st.global_lifetimes h.global_lifetimes;
  associations = All-map (later-IsBlock n) st.associations h.associations;
  current = All-map (later-IsBlock n) (optional_list st.current) h.current;
}

pub close-IsGrounded : (n : ℕ) (st : ParserState) → IsGrounded n st → IsGrounded n (close st)
close-IsGrounded n st h = record {
  warnings = h.warnings;
  global_lifetimes = h.global_lifetimes;
  associations =
      All-append (IsBlock n) st.associations (optional_list st.current) h.associations h.current;
  current = tt;
}

module _ (digit : ℕ → Option ℕ) (is_alphanumeric : ℕ → Bool) (repr : Text → Text) where
  -- A setting that is read, and the warnings, carry the number of their line.
  pub IsOutcome : ℕ → Outcome → Type 0
  IsOutcome n r =
      All (λ (s : Phase2LifetimeSetting). (0 < s.value) × (s.line_number ≡ n)) (optional_list r.0)
      × All (λ (w : ParseWarning). w.line_number ≡ n) r.1

  pub parse_lifetime-IsOutcome :
      (n : ℕ) (command : Text) (m : Option (Text × Text)) (r : Outcome)
      → parse_lifetime digit is_alphanumeric repr n command m ≡ ok r
      → IsOutcome n r
  unfolding parse_lifetime IsOutcome
  parse_lifetime-IsOutcome n command none r h =
      let e : (none, malformed digit is_alphanumeric repr n ∷ []) ≡ r = cc h in
      subst (IsOutcome n) e (tt, (refl, tt))
  parse_lifetime-IsOutcome n command (some (unit, value)) r h =
      elim (Bool-cases (positive_int digit is_alphanumeric repr value == 0)) [
        | inl t ↦
            let e = rw t at h in
            let e' : (none, invalid digit is_alphanumeric repr n unit value command ∷ []) ≡ r =
              cc e in
            subst (IsOutcome n) e' (tt, (refl, tt))
        | inr f ↦
            let e = rw f at h in
            let (u, p, q) =
              >>=-eq-ok
                (or_raise (unit_of (lower unit)) (value_error "is not a valid LifetimeUnit")) _ e in
            let setting : Phase2LifetimeSetting = record {
              unit = u;
              value = positive_int digit is_alphanumeric repr value;
              line_number = n;
            } in
            let e' : (some setting, []) ≡ r = cc q in
            subst (IsOutcome n) e' (((ground (arith, f), refl), tt), tt)
      ]

  IsBlock-of :
      (n : ℕ) (a : IpsecAssociation) (b : Option IpsecAssociation)
      → ok (some a) ≡ ok b
      → IsBlock (suc n) a
      → All (IsBlock (suc n)) (optional_list b)
  IsBlock-of n a b h block =
      let e : some a ≡ b = cc h in
      subst (λ x. All (IsBlock (suc n)) (optional_list x)) e (block, tt)

  -- A declaration begins a block at its line.
  pub declare-IsBlock :
      (n : ℕ) (profile : Option Text) (m : Option (Text × Text)) (b : Option IpsecAssociation)
      → declare digit is_alphanumeric repr (suc n) profile m ≡ ok b
      → All (IsBlock (suc n)) (optional_list b)
  declare-IsBlock n (some name) m b h =
      IsBlock-of n (declared digit is_alphanumeric repr ipsec_profile name (suc n) none) b h
        ((omega arith, omega arith), tt, tt)
  declare-IsBlock n none none b h =
      let e : none ≡ b = cc h in subst (λ x. All (IsBlock (suc n)) (optional_list x)) e tt
  declare-IsBlock n none (some (name, number)) b h =
      let (k, p, q) =
        >>=-eq-ok
          (or_raise (int_of_digits digit is_alphanumeric repr number)
            (value_error "Exceeds the limit (4300 digits)"))
          _ h in
      IsBlock-of n (declared digit is_alphanumeric repr crypto_map name (suc n) (some k)) b q
        ((omega arith, omega arith), tt, tt)

  pub add_global-IsGrounded :
      (n : ℕ) (st : ParserState) (r : Outcome)
      → IsGrounded (suc n) st
      → IsOutcome (suc n) r
      → IsGrounded (suc n) (add_global st r)
  unfolding IsOutcome
  add_global-IsGrounded n st (setting, warnings) h o = record {
    warnings = All-append (IsWarning (suc n)) st.warnings warnings h.warnings (
        All-map
          (λ (w : ParseWarning) (e : w.line_number ≡ suc n). (omega (arith, e), omega (arith, e)))
          warnings o.1);
    global_lifetimes =
        All-append (IsSetting 0 (suc n)) st.global_lifetimes (optional_list setting)
          h.global_lifetimes
          (All-map
            (λ (s : Phase2LifetimeSetting) (e : (0 < s.value) × (s.line_number ≡ suc n)).
              (e.0, (omega (arith, e.1), omega (arith, e.1))))
            (optional_list setting) o.0);
    associations = h.associations;
    current = h.current;
  }

  -- A setting of a block that began on an earlier line.
  pub add_setting-IsGrounded :
      (n : ℕ) (st : ParserState) (a : IpsecAssociation) (r : Outcome)
      → IsGrounded n st
      → IsBlock n a
      → IsOutcome (suc n) r
      → IsGrounded (suc n) (add_setting st a r)
  unfolding IsOutcome
  add_setting-IsGrounded n st a (setting, warnings) h block o =
      let g = later n st h in
      let b = later-IsBlock n a block in
      record {
        warnings = All-append (IsWarning (suc n)) st.warnings warnings g.warnings (
            All-map
              (λ (w : ParseWarning) (e : w.line_number ≡ suc n).
                (omega (arith, e), omega (arith, e)))
              warnings o.1);
        global_lifetimes = g.global_lifetimes;
        associations = g.associations;
        current = (
          (
            b.0,
            All-append (IsSetting a.declaration_line (suc n)) a.lifetime_settings
                (optional_list setting) b.1
                (All-map
                  (λ (s : Phase2LifetimeSetting) (e : (0 < s.value) × (s.line_number ≡ suc n)).
                    (e.0, (omega (arith, e.1, block.0.1), omega (arith, e.1))))
                  (optional_list setting) o.0),
            b.2,
          ),
          tt,
        );
      }

  pub add_peer-IsGrounded :
      (n : ℕ) (st : ParserState) (a : IpsecAssociation) (m : Option Text)
      → IsGrounded n st
      → IsBlock n a
      → IsGrounded (suc n) (add_peer (suc n) st a m)
  add_peer-IsGrounded n st a none h block = later n st h
  add_peer-IsGrounded n st a (some peer) h block =
      let g = later n st h in
      let b = later-IsBlock n a block in
      record {
        warnings = g.warnings;
        global_lifetimes = g.global_lifetimes;
        associations = g.associations;
        current = (
          (
            b.0,
            b.1,
            All-append (λ (p : PeerAddress). IsWithin a.declaration_line (suc n) p.line_number)
                a.peer_addresses (record { value = peer; line_number = suc n } ∷ []) b.2
                ((omega (arith, block.0.1), omega arith), tt),
          ),
          tt,
        );
      }
