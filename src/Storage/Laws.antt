-- ===== src/Storage/Laws.antt =====
-- What becomes of a sequence of INSERT statements: the first constraint that is broken decides.
use netops_copilot.Prelude.{
  ◌≡◌, refl, Bool, true, false, Option, none, some, String, List, [], ◌∷◌, ◌++◌,
}
use netops_copilot.Errors.{integrity_error, Result, ok, err}
use netops_copilot.Exec.{Exec, resume, settle}
use netops_copilot.Storage.Tables.{Database}
use netops_copilot.Storage.Inserts.{first_broken, guarded}

-- What is found if no constraint is broken, or `IntegrityError` and the database as it was.
abbrev pub unless_broken :
    {A : Type 0} → Option String → Result A × Database → Database → Result A × Database
unless_broken none m db = m
unless_broken (some constraint) m db = (err (integrity_error constraint), db)

-- Statements end with `(ok a, after)`, or raise for the broken constraint wherever they stand.
abbrev Ends : {A : Type 0} → Option String → Result A × Database → A → Database → Type 0
Ends none m a after = m ≡ (ok a, after)
Ends (some constraint) m a after = (d : Database) × (m ≡ (err (integrity_error constraint), d))

pub record Stores {A : Type 0} (broken : Option String) (m : Result A × Database) (a : A)
    (after : Database) : Type 0 where
  pub ends : Ends broken m a after

pub Stores-done :
    {A : Type 0} {m : Result A × Database} {a : A} {after : Database}
    → m ≡ (ok a, after)
    → Stores (first_broken []) m a after
Stores-done h = record { ends = h }

pub settle-Stores :
    {A : Type 0} (broken : Option String) {m : Result A × Database} {a : A} {after : Database}
    (db : Database)
    → Stores broken m a after
    → settle m db ≡ unless_broken broken (ok a, after) db
settle-Stores none db h = rw h.ends refl
settle-Stores (some constraint) db h = rw h.ends.1 refl

module _ {A : Type 0} {a : A} {after : Database} (next db : Database)
    (rest : List (Bool × String)) where
  pub guarded-Stores :
      (constraints : List (Bool × String)) (k : Unit {0} → Exec Database A)
      → Stores (first_broken rest) (k tt next) a after
      → Stores (first_broken (constraints ++ rest)) (resume (guarded constraints next db) k) a after
  unfolding guarded
  guarded-Stores [] k h = h
  guarded-Stores ((true, _) ∷ more) k h = guarded-Stores more k h
  guarded-Stores ((false, constraint) ∷ _) k h = record { ends = (db, refl) }

  pub guarded-resume-Stores :
      (constraints : List (Bool × String)) (k : Unit {0} → Exec Database (Unit {0}))
      (next_step : Unit {0} → Exec Database A)
      → Stores (first_broken rest) (resume (k tt next) next_step) a after
      → Stores
          (first_broken (constraints ++ rest))
          (resume (resume (guarded constraints next db) k) next_step)
          a
          after
  unfolding guarded
  guarded-resume-Stores [] k next_step h = h
  guarded-resume-Stores ((true, _) ∷ more) k next_step h = guarded-resume-Stores more k next_step h
  guarded-resume-Stores ((false, constraint) ∷ _) k next_step h = record { ends = (db, refl) }

pub first_broken-whole :
    (constraints rest : List (Bool × String))
    → first_broken constraints ≡ none
    → first_broken (constraints ++ rest) ≡ first_broken rest
first_broken-whole [] rest h = refl
first_broken-whole ((true, _) ∷ more) rest h = first_broken-whole more rest h
first_broken-whole ((false, _) ∷ _) rest h = cc h

pub first_broken-broken :
    (constraints rest : List (Bool × String)) (constraint : String)
    → first_broken constraints ≡ some constraint
    → first_broken (constraints ++ rest) ≡ some constraint
first_broken-broken [] rest constraint h = cc h
first_broken-broken ((true, _) ∷ more) rest constraint h =
    first_broken-broken more rest constraint h
first_broken-broken ((false, _) ∷ _) rest constraint h = h
