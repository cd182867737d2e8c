-- ===== src/Prelude/Lists/Laws.antt =====
-- What holds of lists: elements found, kept, related place by place, made unique.
use Prim.Native.Nat.{ℕ, zero, suc}
use Prim.Native.String.{String}
use mathlib.Core.Path.{◌≡◌, refl, subst, ◌∙◌}
use text.Mathlib.TextEquality.{eq_iff}
use mathlib.Core.Logic.{inl, inr}
use mathlib.Core.Bool.{Bool, true, false, not, ◌&&◌, ◌||◌}
use mathlib.Core.Option.{Option, none, some}
use mathlib.Core.List.{reverse, reverse-append, List, [], ◌∷◌, ◌++◌, map}
use native.Mathlib.Omega.{arith}
use text.Mathlib.Text.{◌==◌}
use gpao_t.Prelude.Tests.{Bool-cases}
use gpao_t.Prelude.Lists.{All, any, filter, find, has, length, some_injective, unique, unique_from}

-- Two lists of one length whose elements are related place by place.
abbrev pub AllPairs {ℓ} : {A B : Type ℓ} → (A → B → Type 0) → List A → List B → Type 0
AllPairs R [] [] = Unit
AllPairs R (x ∷ xs) (y ∷ ys) = R x y × AllPairs R xs ys
AllPairs R [] (y ∷ ys) = ⊥
AllPairs R (x ∷ xs) [] = ⊥

pub AllPairs-map {ℓ} :
    {A : Type ℓ} (R : A → A → Type 0) (f : A → A) (xs : List A)
    → ((x : A) → R x (f x))
    → AllPairs R xs (map f xs)
AllPairs-map R f [] h = tt
AllPairs-map R f (x ∷ xs) h = (h x, AllPairs-map R f xs h)

pub AllPairs-refl {ℓ} :
    {A : Type ℓ} (R : A → A → Type 0) (xs : List A) → ((x : A) → R x x) → AllPairs R xs xs
AllPairs-refl R [] h = tt
AllPairs-refl R (x ∷ xs) h = (h x, AllPairs-refl R xs h)

pub AllPairs-trans {ℓ} :
    {A : Type ℓ} (R S T : A → A → Type 0)
    → ((x y z : A) → R x y → S y z → T x z)
    → (xs ys zs : List A) → AllPairs R xs ys
    → AllPairs S ys zs
    → AllPairs T xs zs
AllPairs-trans R S T join [] [] [] p q = tt
AllPairs-trans R S T join (x ∷ xs) (y ∷ ys) (z ∷ zs) (p, ps) (q, qs) =
    (join x y z p q, AllPairs-trans R S T join xs ys zs ps qs)
AllPairs-trans R S T join [] (y ∷ ys) zs p q = absurd p
AllPairs-trans R S T join [] [] (z ∷ zs) p q = absurd q
AllPairs-trans R S T join (x ∷ xs) [] zs p q = absurd p
AllPairs-trans R S T join (x ∷ xs) (y ∷ ys) [] p q = absurd q

module _ {ℓ} {A : Type ℓ} where
  pub find-holds : (p : A → Bool) (xs : List A) (a : A) → find p xs ≡ some a → p a ≡ true
  find-holds p [] a h = cc
  find-holds p (x ∷ xs) a h = elim (Bool-cases (p x)) [
    | inl e ↦ ground (arith, e)
    | inr e ↦ find-holds p xs a (rw e at h)
  ]

  -- What is found by one test and passes another shows that the other passes somewhere.
  pub find-any :
      (p q : A → Bool) (xs : List A) (a : A) → find p xs ≡ some a → q a ≡ true → any q xs ≡ true
  find-any p q [] a h k = cc
  find-any p q (x ∷ xs) a h k = elim (Bool-cases (p x)) [
    | inl e ↦ ground (arith, e)
    | inr e ↦ ground (arith, find-any p q xs a (rw e at h) k)
  ]

  pub any-find : (p : A → Bool) (xs : List A) → any p xs ≡ true → (a : A) × (find p xs ≡ some a)
  any-find p [] h = cc
  any-find p (x ∷ xs) h = elim (Bool-cases (p x)) [
    | inl e ↦ (x, rw e)
    | inr e ↦ let (a, f) = any-find p xs (rw e at h) in (a, rw e f)
  ]

  pub any-append : (q : A → Bool) (xs ys : List A) → any q (xs ++ ys) ≡ (any q xs || any q ys)
  any-append q [] ys = refl
  any-append q (x ∷ xs) ys = elim (Bool-cases (q x)) [
    | inl e ↦ rw e refl
    | inr e ↦ rw (e, any-append q xs ys) refl
  ]

  pub any-append_left : (q : A → Bool) (xs ys : List A) → any q xs ≡ true → any q (xs ++ ys) ≡ true
  any-append_left q xs ys h = rw (any-append q xs ys, h) refl

  pub any-append_right : (q : A → Bool) (xs ys : List A) → any q ys ≡ true → any q (xs ++ ys) ≡ true
  any-append_right q xs ys h = elim (Bool-cases (any q xs)) [
    | inl e ↦ any-append_left q xs ys e
    | inr e ↦ rw (any-append q xs ys, e, h) refl
  ]

  pub AllPairs-any :
      (R : A → A → Type 0) (q : A → Bool) (xs ys : List A)
      → ((x y : A) → R x y → q y ≡ q x)
      → AllPairs R xs ys
      → any q ys ≡ any q xs
  AllPairs-any R q [] [] h p = refl
  AllPairs-any R q (x ∷ xs) (y ∷ ys) h (r, p) = ground (arith, h x y r, AllPairs-any R q xs ys h p)
  AllPairs-any R q [] (y ∷ ys) h p = absurd p
  AllPairs-any R q (x ∷ xs) [] h p = absurd p

-- `xs.slice(0, n)`
abbrev pub take {ℓ} : {A : Type ℓ} → ℕ → List A → List A
take zero xs = []
take (suc n) [] = []
take (suc n) (x ∷ xs) = x ∷ take n xs

module _ {ℓ} {A : Type ℓ} where
  any-take : (q : A → Bool) (n : ℕ) (xs : List A) → any q (take n xs) ≡ true → any q xs ≡ true
  any-take q zero xs h = cc
  any-take q (suc n) [] h = cc
  any-take q (suc n) (x ∷ xs) h = elim (Bool-cases (q x)) [
    | inl e ↦ rw e refl
    | inr e ↦ rw e (any-take q n xs (rw e at h))
  ]

  any-reverse : (q : A → Bool) (xs : List A) → any q (reverse xs) ≡ true → any q xs ≡ true
  any-reverse q [] h = h
  any-reverse q (x ∷ xs) h = elim (Bool-cases (any q (reverse xs))) [
    | inl e ↦ any-append_right q (x ∷ []) xs (any-reverse q xs e)
    | inr e ↦
        let k : any q (reverse xs ++ x ∷ []) ≡ true = rw (reverse-append (x ∷ []) xs) at h in
        any-append_left q (x ∷ []) xs (rw (any-append q (reverse xs) (x ∷ []), e) at k)
  ]

  -- What is found among the newest stands in the list.
  pub any-newest :
      (p q : A → Bool) (n : ℕ) (xs : List A) (a : A)
      → find p (take n (reverse xs)) ≡ some a
      → q a ≡ true
      → any q xs ≡ true
  any-newest p q n xs a h k =
      any-reverse q xs (any-take q n (reverse xs) (find-any p q (take n (reverse xs)) a h k))

pub All-append {ℓ κ} :
    {A : Type ℓ} (P : A → Type κ) (xs ys : List A) → All P xs → All P ys → All P (xs ++ ys)
All-append P [] ys h k = k
All-append P (x ∷ xs) ys (h, hs) k = (h, All-append P xs ys hs k)

pub All-weaken {ℓ κ} :
    {A : Type ℓ} (P Q : A → Type κ) (xs : List A) → ((x : A) → P x → Q x) → All P xs → All Q xs
All-weaken P Q [] f h = tt
All-weaken P Q (x ∷ xs) f (h, hs) = (f x h, All-weaken P Q xs f hs)

pub All-filter {ℓ κ} :
    {A B : Type ℓ} (P : B → Type κ) (p : B → Bool) (f : A → B) (xs : List A)
    → ((x : A) → p (f x) ≡ true → P (f x))
    → All P (filter p (map f xs))
All-filter P p f [] h = tt
All-filter P p f (x ∷ xs) h = elim (Bool-cases (p (f x))) [
  | inl e ↦ rw e (h x e, All-filter P p f xs h)
  | inr e ↦ rw e (All-filter P p f xs h)
]

abbrev pub is_none {ℓ} : {A : Type ℓ} → Option A → Bool
is_none none = true
is_none (some a) = false

module _ {ℓ κ} {A : Type ℓ} (P : A → Type κ) where
  pub All-find : (p : A → Bool) (xs : List A) (a : A) → All P xs → find p xs ≡ some a → P a
  All-find p [] a h e = cc
  All-find p (x ∷ xs) a (h, hs) e = elim (Bool-cases (p x)) [
    | inl f ↦ let same : some x ≡ some a = rw f at e in subst P (some_injective x a same) h
    | inr f ↦ All-find p xs a hs (rw f at e)
  ]

  pub All-filter_kept : (p : A → Bool) (xs : List A) → All P xs → All P (filter p xs)
  All-filter_kept p [] h = tt
  All-filter_kept p (x ∷ xs) (h, hs) = elim (Bool-cases (p x)) [
    | inl f ↦ rw f (h, All-filter_kept p xs hs)
    | inr f ↦ rw f (All-filter_kept p xs hs)
  ]

-- `[...new Set(xs)]` has the elements of `xs` that were not seen.
has-unique_from :
    (seen xs : List String) (a : String)
    → has (unique_from seen xs) a ≡ (has xs a && not (has seen a))
has-unique_from seen [] a = refl
has-unique_from seen (x ∷ xs) a = elim (Bool-cases (has seen x)) [
  | inl e ↦ elim (Bool-cases (x == a)) [
    | inl k ↦
        let same : x ≡ a = (eq_iff x a).0 k in
        let old : has seen a ≡ true = subst (λ t. has seen t ≡ true) same e in
        rw e (rw (has-unique_from seen xs a, k, old) (false_and (has xs a)))
    | inr k ↦ rw e (rw k (has-unique_from seen xs a))
  ]
  | inr e ↦ elim (Bool-cases (x == a)) [
    | inl k ↦
        let same : x ≡ a = (eq_iff x a).0 k in
        let fresh : has seen a ≡ false = subst (λ t. has seen t ≡ false) same e in
        rw e (rw (k, fresh) refl)
    | inr k ↦ rw e (rw (has-unique_from (x ∷ seen) xs a, k) refl)
  ]
]
  where
    false_and : (b : Bool) → (b && false) ≡ false
    false_and true = refl
    false_and false = refl

pub has-unique : (xs : List String) (a : String) → has (unique xs) a ≡ has xs a
has-unique xs a = has-unique_from [] xs a ∙ and_true (has xs a)
  where
    and_true : (b : Bool) → (b && true) ≡ b
    and_true true = refl
    and_true false = refl

pub length-map {ℓ} : {A B : Type ℓ} (f : A → B) (xs : List A) → length (map f xs) ≡ length xs
length-map f [] = refl
length-map f (x ∷ xs) = omega (arith, length-map f xs)
