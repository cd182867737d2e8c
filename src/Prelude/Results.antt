-- ===== src/Prelude/Results.antt =====
-- What a function that may throw comes to: its value, or the message of its `Error`; and the chaining
-- of optional results.
use Prim.Native.String.{String}
use mathlib.Core.Option.{Option, none, some}

pub data Outcome {ℓ} (A : Type ℓ) : Type ℓ where
  returned : A → Outcome A
  threw : (message : String) → Outcome A

abbrev pub IsReturned {ℓ} : {A : Type ℓ} → Outcome A → Type 0
IsReturned (returned a) = Unit
IsReturned (threw message) = ⊥

infixl 1 ◌>>=◌
abbrev pub ◌>>=◌ {ℓ κ} : {A : Type ℓ} {B : Type κ} → Option A → (A → Option B) → Option B
none >>= f = none
some a >>= f = f a
