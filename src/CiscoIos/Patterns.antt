-- ===== src/CiscoIos/Patterns.antt =====
-- The regular expressions of services/api/netops_api/parsers/cisco_ios/parser.py as recognisers.
-- Each part of a pattern takes as much as it can, which is the only way for these patterns to
-- match: a `\S+` ends where a space begins, and no two alternatives begin alike. The Unicode
-- database is a parameter: the value of a decimal digit, and whether a character is alphanumeric.
use netops_copilot.Prelude.{
  ℕ, ◌+◌, ◌*◌, leb, ◌==◌, nat_eq, list_eq, Bool, true, false, not, ◌&&◌, ◌||◌, Option, none, some,
  [], ◌∷◌, if◌then◌else◌,
}
use netops_copilot.Prelude.Lists.{all}
use netops_copilot.Prelude.Text.{Text, codes, is_space}
use netops_copilot.CiscoIos.Models.{LifetimeUnit, seconds, kilobytes}

infixl 5 ◌>>=◌
abbrev pub ◌>>=◌ {ℓ κ} : {A : Type ℓ} {B : Type κ} → Option A → (A → Option B) → Option B
none >>= f = none
some a >>= f = f a

-- Does a character match a lower-case ASCII letter or another ASCII character under IGNORECASE? The
-- letters i, k and s have relatives outside ASCII.
unfoldable pub is_like : ℕ → ℕ → Bool
is_like letter c =
    c == letter
    || (leb b'a' letter && leb letter b'z' && c + 32 == letter)
    || (letter == b'i' && (c == 304 || c == 305))
    || (letter == b'k' && c == 8490)
    || (letter == b's' && c == 383)

-- What a literal matches, and what follows it.
unfoldable pub literal : Text → Text → Option (Text × Text)
literal [] s = some ([], s)
literal (l ∷ ls) [] = none
literal (l ∷ ls) (c ∷ s) =
    let rest = literal ls s in
    if is_like l c then (rest >>= λ (r : Text × Text). some (c ∷ r.0, r.1)) else none

-- The longest prefix of characters that pass a test, and what follows it.
abbrev pub span : (ℕ → Bool) → Text → Text × Text
span p [] = ([], [])
span p (c ∷ s) = let rest = span p s in if p c then (c ∷ rest.0, rest.1) else ([], c ∷ s)

-- One or more characters that pass a test.
abbrev pub some_of : (ℕ → Bool) → Text → Option (Text × Text)
some_of p s = elim (span p s).0 [ [] ↦ none | c ∷ cs ↦ some (c ∷ cs, (span p s).1) ]

-- `\s+` and `\S+`
abbrev pub spaces : Text → Option Text
spaces s = some_of is_space s >>= λ (r : Text × Text). some r.1

abbrev pub word : Text → Option (Text × Text)
word = some_of (λ (c : ℕ). not (is_space c))

-- A literal whose text is not needed, and one with `\s+` after it.
abbrev pub after : Text → Text → Option Text
after l s = literal l s >>= λ (r : Text × Text). some r.1

abbrev pub keyword : Text → Text → Option Text
keyword l s = after l s >>= spaces

-- `(?:...)?`
abbrev pub optional : (Text → Option Text) → Text → Text
optional p s = elim (p s) [ none ↦ s | some rest ↦ rest ]

-- `\S+\s*$` of `fullmatch`
abbrev pub final_word : Text → Option Text
final_word s = word s >>= λ (r : Text × Text). if all is_space r.1 then some r.0 else none

-- `(?P<unit>seconds|kilobytes)\s+(?P<value>\S+)\s*$`: the two groups
unfoldable pub unit_and_value : Text → Option (Text × Text)
unit_and_value s =
    elim (literal (codes "seconds") s) [ some r ↦ some r | none ↦ literal (codes "kilobytes") s ]
    >>= λ (r : Text × Text).
        spaces r.1 >>= λ (rest : Text). final_word rest >>= λ (value : Text). some (r.0, value)

abbrev pub security_association : Text → Option Text
security_association s = keyword (codes "security-association") s

-- `_GLOBAL_LIFETIME`
unfoldable pub global_lifetime_match : Text → Option (Text × Text)
global_lifetime_match s =
    keyword (codes "crypto") s
    >>= keyword (codes "ipsec")
    >>= security_association
    >>= keyword (codes "lifetime")
    >>= unit_and_value

-- `_SET_LIFETIME`
unfoldable pub set_lifetime_match : Text → Option (Text × Text)
set_lifetime_match s =
    keyword (codes "set") s
    >>= security_association
    >>= keyword (codes "lifetime")
    >>= unit_and_value

-- `_PROFILE_DECLARATION`
unfoldable pub profile_match : Text → Option Text
profile_match s =
    keyword (codes "crypto") s
    >>= keyword (codes "ipsec")
    >>= keyword (codes "profile")
    >>= final_word

-- `_SET_PEER`
unfoldable pub peer_match : Text → Option Text
peer_match s =
    keyword (codes "set") s >>= keyword (codes "peer") >>= word >>= λ (r : Text × Text). some r.0

module _ (digit : ℕ → Option ℕ) (is_alphanumeric : ℕ → Bool) where
  abbrev pub is_digit : ℕ → Bool
  is_digit c = elim (digit c) [ none ↦ false | some _ ↦ true ]

  -- `\b` after a word character
  abbrev pub at_boundary : Text → Bool
  at_boundary [] = true
  at_boundary (c ∷ s) = not (is_alphanumeric c || c == b'_')

  -- `_CRYPTO_MAP_DECLARATION`: its name and its sequence
  unfoldable pub crypto_map_match : Text → Option (Text × Text)
  crypto_map_match s = keyword (codes "crypto") s >>= λ (r : Text).
      keyword (codes "map") (optional (after (codes "dynamic-")) r)
      >>= word
      >>= λ (name : Text × Text). spaces name.1 >>= some_of is_digit >>= λ (number : Text × Text).
          if at_boundary number.1 then some (name.0, number.0) else none

  -- `_LIFETIME_PREFIX`
  unfoldable pub is_lifetime_prefix : Text → Bool
  is_lifetime_prefix s =
      let r = optional (λ (t : Text). keyword (codes "crypto") t >>= keyword (codes "ipsec")) s in
      elim (security_association (optional (keyword (codes "set")) r)
        >>= after (codes "lifetime")) [ none ↦ false | some rest ↦ at_boundary rest ]

  -- The value of the characters of a number, after those that make `value`: `none` where a
  -- character is no digit, unless it is an underscore between two digits.
  abbrev pub read_digits : Bool → ℕ → Text → Option ℕ
  read_digits after_digit value [] = if after_digit then some value else none
  read_digits after_digit value (c ∷ s) = elim (digit c) [
    | some d ↦ read_digits true (value * 10 + d) s
    | none ↦ elim (after_digit && c == b'_') [ true ↦ read_digits false value s | false ↦ none ]
  ]

-- `unit.lower()`, for what the pattern of a unit matches
unfoldable pub lower : Text → Text
lower [] = []
lower (c ∷ s) =
    let rest = lower s in
    if leb b'A' c && leb c b'Z'
    then (c + 32) ∷ rest
    else if c == 8490
    then b'k' ∷ rest
    else if c == 304
    then b'i' ∷ 775 ∷ rest
    else c ∷ rest

-- `LifetimeUnit(value)`, which raises `ValueError` for another value
unfoldable pub unit_of : Text → Option LifetimeUnit
unit_of s =
    if s == codes "seconds"
    then some seconds
    else if s == codes "kilobytes"
    then some kilobytes
    else none
