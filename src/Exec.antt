-- ===== src/Exec.antt =====
-- Methods that read and write a store and may raise. What was written before a raise stays
-- written, unless a savepoint is rolled back.
use netops_copilot.Prelude.{◌≡◌, refl, Bool, true, false, Option, none, some, List, [], ◌∷◌}
use netops_copilot.Errors.{Exception, runtime_error, Result, ok, err}

abbrev pub Exec {ℓ} : Type ℓ → Type ℓ → Type ℓ
Exec S A = S → Result A × S

module _ {ℓ} {S A : Type ℓ} where
  abbrev pub pure : A → Exec S A
  pure a s = (ok a, s)

  abbrev pub raise : Exception → Exec S A
  raise e s = (err e, s)

  abbrev pub lift : Result A → Exec S A
  lift r s = (r, s)

  abbrev pub gets : (S → A) → Exec S A
  gets f s = (ok (f s), s)

  -- `with connection.begin_nested()`: a raise rolls back to the savepoint, and goes on.
  abbrev pub settle : Result A × S → S → Result A × S
  settle (ok a, t) s = (ok a, t)
  settle (err e, t) s = (err e, s)

  abbrev pub atomic : Exec S A → Exec S A
  atomic m s = settle (m s) s

  -- `if value is None: raise e`
  abbrev pub or_raise : Option A → Exception → Exec S A
  or_raise none e = raise e
  or_raise (some a) e = pure a

module _ {ℓ} {S A B : Type ℓ} where
  abbrev pub resume : Result A × S → (A → Exec S B) → Result B × S
  resume (ok a, s) f = f a s
  resume (err e, s) f = (err e, s)

  infixl 5 ◌>>=◌ ◌>>◌
  abbrev pub ◌>>=◌ : Exec S A → (A → Exec S B) → Exec S B
  ◌>>=◌ m f s = resume (m s) f

  abbrev pub ◌>>◌ : Exec S A → Exec S B → Exec S B
  m >> k = m >>= λ _. k

module _ {S : Type 0} where
  -- `if test: raise e`
  abbrev pub raise_if : Bool → Exception → Exec S (Unit {0})
  raise_if true e = raise e
  raise_if false e = pure tt

  abbrev pub modify : (S → S) → Exec S (Unit {0})
  modify f s = (ok tt, f s)

-- `result.mappings().one_or_none()` of SQLAlchemy
abbrev pub one_or_none {ℓ} : {A : Type ℓ} → List A → Result (Option A)
one_or_none [] = ok none
one_or_none (row ∷ []) = ok (some row)
one_or_none (row ∷ next ∷ rest) =
    err (runtime_error "Multiple rows were found when one or none was required")

pub resume-eq-ok :
    {A B S : Type 0} (m : Result A × S) (f : A → Exec S B) {b : B} {t : S}
    → resume m f ≡ (ok b, t)
    → (a : A) × (s : S) × (m ≡ (ok a, s)) × (f a s ≡ (ok b, t))
resume-eq-ok (ok a, s) f h = (a, s, refl, h)
resume-eq-ok (err e, s) f h = cc h
