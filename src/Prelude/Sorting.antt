-- ===== src/Prelude/Sorting.antt =====
-- `xs.sort((a, b) => key(b) - key(a))`: the engine's sort is stable, and the greatest key comes first.
use Prim.Native.Nat.{ℕ, ◌≤◌}
use mathlib.Core.Path.{◌≡◌, refl, sym, ap, subst, ◌∙◌}
use mathlib.Core.Logic.{inl, inr}
use mathlib.Core.Bool.{Bool, ◌||◌}
use mathlib.Core.List.{List, [], ◌∷◌, Permᴰ}
use mathlib.Core.List.Permᴰ
use native.Mathlib.Omega.{arith}
use gpao_t.Prelude.Tests.{if◌then◌else◌, Bool-cases, ltb, eq_nat}
use gpao_t.Prelude.Lists.{filter, any, All}

module _ {ℓ} {A : Type ℓ} (key : A → ℕ) where
  -- Before the first element of a key that is not greater.
  unfoldable pub insert_desc : A → List A → List A
  insert_desc x [] = x ∷ []
  insert_desc x (y ∷ ys) =
      let rest = insert_desc x ys in if ltb (key x) (key y) then y ∷ rest else x ∷ y ∷ ys

  unfoldable pub sort_desc : List A → List A
  unfolding insert_desc
  sort_desc [] = []
  sort_desc (x ∷ xs) = insert_desc x (sort_desc xs)

  pub insert_desc-perm : (x : A) (ys : List A) → Permᴰ (insert_desc x ys) (x ∷ ys)
  unfolding insert_desc
  insert_desc-perm x [] = Permᴰ.refl (x ∷ [])
  insert_desc-perm x (y ∷ ys) = elim (Bool-cases (ltb (key x) (key y))) [
    | inl e ↦ rw e (Permᴰ.trans (Permᴰ.cons refl (insert_desc-perm x ys)) (Permᴰ.swap refl refl))
    | inr e ↦ rw e (Permᴰ.refl (x ∷ y ∷ ys))
  ]

  pub sort_desc-perm : (xs : List A) → Permᴰ (sort_desc xs) xs
  unfolding sort_desc
  sort_desc-perm [] = Permᴰ.nil
  sort_desc-perm (x ∷ xs) =
      Permᴰ.trans (insert_desc-perm x (sort_desc xs)) (Permᴰ.cons refl (sort_desc-perm xs))

  -- Each key is at most the bound, and at least those after it.
  abbrev pub AtMost : ℕ → List A → Type 0
  AtMost n [] = Unit
  AtMost n (x ∷ xs) = (key x ≤ n) × AtMost (key x) xs

  abbrev pub IsDescending : List A → Type 0
  IsDescending [] = Unit
  IsDescending (x ∷ xs) = AtMost (key x) xs

  insert_desc-AtMost :
      (n : ℕ) (x : A) (ys : List A) → key x ≤ n → AtMost n ys → AtMost n (insert_desc x ys)
  unfolding insert_desc
  insert_desc-AtMost n x [] h k = (h, tt)
  insert_desc-AtMost n x (y ∷ ys) h (k, ks) = elim (Bool-cases (ltb (key x) (key y))) [
    | inl e ↦ rw e (k, insert_desc-AtMost (key y) x ys (ground (arith, e)) ks)
    | inr e ↦ rw e (h, (ground (arith, e), ks))
  ]

  insert_desc-IsDescending :
      (x : A) (ys : List A) → IsDescending ys → IsDescending (insert_desc x ys)
  unfolding insert_desc
  insert_desc-IsDescending x [] h = tt
  insert_desc-IsDescending x (y ∷ ys) h = elim (Bool-cases (ltb (key x) (key y))) [
    | inl e ↦ rw e (insert_desc-AtMost (key y) x ys (ground (arith, e)) h)
    | inr e ↦ rw e (ground (arith, e), h)
  ]

  pub sort_desc-IsDescending : (xs : List A) → IsDescending (sort_desc xs)
  unfolding sort_desc
  sort_desc-IsDescending [] = tt
  sort_desc-IsDescending (x ∷ xs) =
      insert_desc-IsDescending x (sort_desc xs) (sort_desc-IsDescending xs)

  -- Elements of one key keep their order.
  abbrev pub of_key : ℕ → List A → List A
  of_key n xs = filter (λ x. eq_nat (key x) n) xs

  insert_desc-of_key :
      (n : ℕ) (x : A) (ys : List A) → of_key n (insert_desc x ys) ≡ of_key n (x ∷ ys)
  unfolding insert_desc
  insert_desc-of_key n x [] = refl
  insert_desc-of_key n x (y ∷ ys) = elim (Bool-cases (ltb (key x) (key y))) [
    | inl e ↦ rw e (ground (arith, e, insert_desc-of_key n x ys))
    | inr e ↦ rw e refl
  ]

  pub sort_desc-of_key : (n : ℕ) (xs : List A) → of_key n (sort_desc xs) ≡ of_key n xs
  unfolding sort_desc
  sort_desc-of_key n [] = refl
  sort_desc-of_key n (x ∷ xs) =
      insert_desc-of_key n x (sort_desc xs) ∙ ground (arith, sort_desc-of_key n xs)

  pub any-insert_desc :
      (q : A → Bool) (x : A) (ys : List A) → any q (insert_desc x ys) ≡ any q (x ∷ ys)
  unfolding insert_desc
  any-insert_desc q x [] = refl
  any-insert_desc q x (y ∷ ys) = elim (Bool-cases (ltb (key x) (key y))) [
    | inl e ↦ rw e (ground (arith, any-insert_desc q x ys))
    | inr e ↦ rw e refl
  ]

  pub any-sort_desc : (q : A → Bool) (xs : List A) → any q (sort_desc xs) ≡ any q xs
  unfolding sort_desc
  any-sort_desc q [] = refl
  any-sort_desc q (x ∷ xs) =
      any-insert_desc q x (sort_desc xs) ∙ ap (λ b. q x || b) (any-sort_desc q xs)

  module _ {κ} (P : A → Type κ) where
    All-insert_desc : (x : A) (ys : List A) → All P (insert_desc x ys) → P x × All P ys
    unfolding insert_desc
    All-insert_desc x [] h = h
    All-insert_desc x (y ∷ ys) h = elim (Bool-cases (ltb (key x) (key y))) [
      | inl e ↦
          let (hy, hs) = rw e at h in let (hx, hys) = All-insert_desc x ys hs in (hx, (hy, hys))
      | inr e ↦ rw e at h
    ]

    -- What holds of all sorted elements holds of all elements.
    pub All-of_sort_desc : (xs : List A) → All P (sort_desc xs) → All P xs
    unfolding sort_desc
    All-of_sort_desc [] h = tt
    All-of_sort_desc (x ∷ xs) h =
        let (hx, hs) = All-insert_desc x (sort_desc xs) h in (hx, All-of_sort_desc xs hs)

  module _ {κ} (P : A → Type κ) where
    insert_desc-All : (x : A) (ys : List A) → P x → All P ys → All P (insert_desc x ys)
    unfolding insert_desc
    insert_desc-All x [] h hs = (h, hs)
    insert_desc-All x (y ∷ ys) h (hy, hs) = elim (Bool-cases (ltb (key x) (key y))) [
      | inl e ↦ rw e (hy, insert_desc-All x ys h hs)
      | inr e ↦ rw e (h, (hy, hs))
    ]

    pub sort_desc-All : (xs : List A) → All P xs → All P (sort_desc xs)
    unfolding sort_desc
    sort_desc-All [] h = tt
    sort_desc-All (x ∷ xs) (h, hs) = insert_desc-All x (sort_desc xs) h (sort_desc-All xs hs)

  AtMost-All : (n m : ℕ) (xs : List A) → n ≤ m → AtMost n xs → All (λ x. key x ≤ m) xs
  AtMost-All n m [] h k = tt
  AtMost-All n m (x ∷ xs) h (l, k) =
      (omega (arith, h, l), AtMost-All (key x) m xs (omega (arith, h, l)) k)

  -- The first of a sorted list has the greatest key of all.
  pub sort_desc-greatest :
      (xs rest : List A) (x : A) → sort_desc xs ≡ x ∷ rest → All (λ y. key y ≤ key x) xs
  sort_desc-greatest xs rest x e =
      let sorted : IsDescending (x ∷ rest) = subst IsDescending e (sort_desc-IsDescending xs) in
      All-of_sort_desc (λ y. key y ≤ key x) xs
        (subst (All (λ y. key y ≤ key x)) (sym e)
          (omega arith, AtMost-All (key x) (key x) rest (omega arith) sorted))
