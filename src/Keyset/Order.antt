-- ===== src/Keyset/Order.antt =====
-- Row comparison of PostgreSQL, `(occurred_at, id) > (:instant, :id)`, and the laws of such an order
-- as an interface.
use netops_copilot.Prelude.{ℕ, ltb, nat_eq, ◌==◌, Bool, true, false, ◌&&◌, ◌||◌, ◌≡◌, arith}

-- The time and the identity of a row.
abbrev pub Key : Type 0
Key = ℕ × ℕ

unfoldable pub precedes : Key → Key → Bool
precedes (s, i) (t, j) = ltb s t || (s == t && ltb i j)

-- A strict order of rows, given by a test.
pub record StrictOrder {ℓ} (A : Type ℓ) : Type ℓ where
  pub less : A → A → Bool
  pub irreflexive : (x : A) → less x x ≡ false
  pub transitive : (x y z : A) → less x y ≡ true → less y z ≡ true → less x z ≡ true

pub precedes-irreflexive : (k : Key) → precedes k k ≡ false
unfolding precedes
precedes-irreflexive (s, i) = ground arith

pub precedes-transitive :
    (j k l : Key) → precedes j k ≡ true → precedes k l ≡ true → precedes j l ≡ true
unfolding precedes
precedes-transitive (s, i) (t, j) (u, k) p q = ground arith

-- Two keys that are not in order, with different identities, are in the other order.
pub precedes-connected : (j k : Key) → (j.1 ≡ k.1 → ⊥) → precedes j k ≡ false → precedes k j ≡ true
unfolding precedes
precedes-connected (s, i) (t, j) distinct p = ground arith

-- `ORDER BY` a key, ascending and descending.
module _ {ℓ} {A : Type ℓ} (key : A → Key) where
  abbrev pub ascending : StrictOrder A
  ascending = record {
    less = λ x y. precedes (key x) (key y);
    irreflexive = λ x. precedes-irreflexive (key x);
    transitive = λ x y z. precedes-transitive (key x) (key y) (key z);
  }

  abbrev pub descending : StrictOrder A
  descending = record {
    less = λ x y. precedes (key y) (key x);
    irreflexive = λ x. precedes-irreflexive (key x);
    transitive = λ x y z p q. precedes-transitive (key z) (key y) (key x) q p;
  }

-- A row comparison of three columns.
unfoldable pub precedes3 : ℕ × Key → ℕ × Key → Bool
precedes3 (a, j) (b, k) = ltb a b || (a == b && precedes j k)

pub precedes3-irreflexive : (k : ℕ × Key) → precedes3 k k ≡ false
unfolding precedes3
precedes3-irreflexive (a, j) = ground (arith, precedes-irreflexive j)

pub precedes3-transitive :
    (j k l : ℕ × Key) → precedes3 j k ≡ true → precedes3 k l ≡ true → precedes3 j l ≡ true
unfolding precedes3
precedes3-transitive (a, j) (b, k) (c, l) p q = ground (arith, precedes-transitive j k l)

-- `ORDER BY` three columns, each of them `DESC`.
abbrev pub descending3 {ℓ} : {A : Type ℓ} → (A → ℕ × Key) → StrictOrder A
descending3 key = record {
  less = λ x y. precedes3 (key y) (key x);
  irreflexive = λ x. precedes3-irreflexive (key x);
  transitive = λ x y z p q. precedes3-transitive (key z) (key y) (key x) q p;
}

-- `ORDER BY` three columns, each of them `ASC`.
abbrev pub ascending3 {ℓ} : {A : Type ℓ} → (A → ℕ × Key) → StrictOrder A
ascending3 key = record {
  less = λ x y. precedes3 (key x) (key y);
  irreflexive = λ x. precedes3-irreflexive (key x);
  transitive = λ x y z. precedes3-transitive (key x) (key y) (key z);
}
