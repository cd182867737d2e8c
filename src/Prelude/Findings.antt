-- ===== src/Prelude/Findings.antt =====
-- A validation: a list of tests, each with the finding that it pushes where it holds.
use mathlib.Core.Path.{◌≡◌, refl}
use mathlib.Core.Bool.{Bool, true, false}
use mathlib.Core.List.{List, [], ◌∷◌, ◌++◌}
use Prim.Native.String.{String}
use gpao_t.Prelude.Tests.{if◌then◌else◌}
use gpao_t.Prelude.Lists.{All}

-- `if (test) findings.push(finding)`, in order.
abbrev pub collect : List (Bool × String) → List String
collect [] = []
collect ((test, finding) ∷ checks) = if test then finding ∷ collect checks else collect checks

-- `findings.length === 0`
abbrev pub is_empty {ℓ} : {A : Type ℓ} → List A → Bool
is_empty [] = true
is_empty (x ∷ xs) = false

abbrev pub AllClear : List (Bool × String) → Type 0
AllClear = All (λ check. check.0 ≡ false)

-- Nothing is found exactly when no test holds.
pub clear_of_empty :
    (checks : List (Bool × String)) → is_empty (collect checks) ≡ true → AllClear checks
clear_of_empty [] h = tt
clear_of_empty ((true, finding) ∷ checks) h = cc
clear_of_empty ((false, finding) ∷ checks) h = (refl, clear_of_empty checks h)

pub empty_of_clear : (checks : List (Bool × String)) → AllClear checks → collect checks ≡ []
empty_of_clear [] h = refl
empty_of_clear ((test, finding) ∷ checks) (e, h) = rw e (empty_of_clear checks h)

pub append_empty {ℓ} :
    {A : Type ℓ} (xs ys : List A)
    → is_empty (xs ++ ys) ≡ true
    → (is_empty xs ≡ true) × (is_empty ys ≡ true)
append_empty [] ys h = (refl, h)
append_empty (x ∷ xs) ys h = cc

pub not_empty-append {ℓ} :
    {A : Type ℓ} (xs ys : List A) → is_empty ys ≡ false → is_empty (xs ++ ys) ≡ false
not_empty-append [] ys h = h
not_empty-append (x ∷ xs) ys h = refl
