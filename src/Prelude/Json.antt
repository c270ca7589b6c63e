-- ===== src/Prelude/Json.antt =====
-- JSON values. A column that is written as `CAST(json.dumps(v) AS jsonb)` holds the value `v`.
use Prim.Native.Nat.{ℕ}
use Prim.Native.String.{String}
use mathlib.Core.Bool.{Bool}
use mathlib.Core.Option.{Option, none, some}
use package.netops_copilot.Prelude.Text.{Text}

mutual
  pub data Json : Type 0 where
    null : Json
    boolean : Bool → Json
    integer : ℕ → Json
    str : Text → Json
    arr : Items → Json
    obj : Fields → Json

  pub data Items : Type 0 where
    nil : Items
    cons : Json → Items → Items

  pub data Fields : Type 0 where
    end : Fields
    field : String → Json → Fields → Fields

-- `x if x is not None else None`, as JSON
abbrev pub nullable {ℓ} : {A : Type ℓ} → (A → Json) → Option A → Json
nullable f none = null
nullable f (some a) = f a
