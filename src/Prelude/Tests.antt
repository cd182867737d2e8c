-- ===== src/Prelude/Tests.antt =====
-- Boolean tests, the conditional, and JavaScript's reading of an empty text as false.
use Prim.Native.Nat.{◌<◌, ℕ, compare, Ordering}
use Prim.Native.String
use Prim.Native.String.{String}
use mathlib.Core.Path.{◌≡◌, refl, ap}
use mathlib.Core.Logic.{◌≢◌, ◌⊎◌, inl, inr}
use mathlib.Core.Bool.{Bool, true, false, not}
use mathlib.Core.Option.{Option, none, some}
use native.Mathlib.Omega.{arith}
use text.Mathlib.TextLemmas as TextLemmas
use text.Mathlib.Text.{◌==◌}
use text.Mathlib.TextEquality.{eq_iff}

abbrev pub ltb : ℕ → ℕ → Bool
ltb a b = elim (compare a b) [ Ordering.lt ↦ true | _ ↦ false ]

abbrev pub leb : ℕ → ℕ → Bool
leb a b = elim (compare a b) [ Ordering.gt ↦ false | _ ↦ true ]

infix 1 if◌then◌else◌
abbrev pub if◌then◌else◌ {ℓ} : {A : Type ℓ} → Bool → A → A → A
if true then x else y = x
if false then x else y = y

pub Bool-cases : (b : Bool) → (b ≡ true) ⊎ (b ≡ false)
Bool-cases true = inl refl
Bool-cases false = inr refl

pub Option-cases {ℓ} : {A : Type ℓ} (o : Option A) → (o ≡ none) ⊎ ((a : A) × (o ≡ some a))
Option-cases none = inl refl
Option-cases (some a) = inr (a, refl)

-- A missing text field and an empty one are both false in a test: both are the empty text here.
abbrev pub truthy : String → Bool
truthy s = not (s == "")

-- `s || d`
abbrev pub or_text : String → String → String
or_text s d = if s == "" then d else s

-- `s || null`
abbrev pub or_null : String → Option String
or_null s = if s == "" then none else some s

-- `o?.x || null` of a text that may be absent.
abbrev pub non_empty : Option String → Option String
non_empty none = none
non_empty (some s) = or_null s

-- `a || b` of texts that may be absent.
abbrev pub or_option {ℓ} : {A : Type ℓ} → Option A → Option A → Option A
or_option none b = b
or_option (some a) b = some a

-- `o === s`
abbrev pub is_text : Option String → String → Bool
is_text none s = false
is_text (some t) s = t == s

-- `a === b` where either may be null.
abbrev pub same_text : Option String → Option String → Bool
same_text none none = true
same_text (some a) (some b) = a == b
same_text _ _ = false

pub or_null-some : (s : String) → s ≢ "" → or_null s ≡ some s
or_null-some s h = ground (arith, eq_iff s "")

-- A template literal joins texts.
abbrev pub append : String → String → String
append s t = String.◌++◌ s t

-- `a === b` of numbers.
abbrev pub eq_nat : ℕ → ℕ → Bool
eq_nat a b = elim (compare a b) [ Ordering.eq ↦ true | _ ↦ false ]

-- What a test that did not push its finding says.
pub not-false : (b : Bool) → not b ≡ false → b ≡ true
not-false true h = refl
not-false false h = cc

pub eq_of_equal : (s t : String) → not (s == t) ≡ false → s ≡ t
eq_of_equal s t h = (eq_iff s t).0 (not-false (s == t) h)

pub eq_of_same_text : (a b : Option String) → not (same_text a b) ≡ false → a ≡ b
eq_of_same_text none none h = refl
eq_of_same_text none (some t) h = cc
eq_of_same_text (some s) none h = cc
eq_of_same_text (some s) (some t) h = ap some (eq_of_equal s t h)

pub eq_of_is_text : (o : Option String) (s : String) → not (is_text o s) ≡ false → o ≡ some s
eq_of_is_text none s h = cc
eq_of_is_text (some t) s h = ap some (eq_of_equal t s h)

pub append-nonempty : (s t : String) → 0 < String.count s → append s t ≢ ""
append-nonempty s t h e =
    omega (arith, h, ap String.count e, TextLemmas.length-append s t, TextLemmas.length-nil)

-- What holds in each branch holds of the conditional.
pub if-holds {ℓ κ} :
    {A : Type ℓ} (P : A → Type κ) (b : Bool) (x y : A)
    → (b ≡ true → P x)
    → (b ≡ false → P y)
    → P (if b then x else y)
if-holds P true x y h k = h refl
if-holds P false x y h k = k refl

pub false_of_not : (b : Bool) → not b ≡ true → b ≡ false
false_of_not true h = cc
false_of_not false h = refl
