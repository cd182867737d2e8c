-- ===== src/Storage/Records/Last.antt =====
-- The last elements of a list: of its end, of its own last elements, of its image.
use gpao_t.Prelude.{
  ℕ, zero, suc, ◌+◌, ◌-◌, ◌≤◌, ◌≡◌, refl, ap, ◌∙◌, sym, List, [], ◌∷◌, ◌++◌, map, length,
  length-append, length-map, drop, take, take_last, arith, All, inl, inr, Bool-cases, leb,
}

module _ {ℓ} {A : Type ℓ} where
  drop-append : (k : ℕ) (xs ys : List A) → drop (length xs + k) (xs ++ ys) ≡ drop k ys
  drop-append k [] ys = let e : 0 + k ≡ k = omega arith in rw e refl
  drop-append k (x ∷ xs) ys =
      let e : suc (length xs) + k ≡ suc (length xs + k) = omega arith in rw e (drop-append k xs ys)

  pub take_last-append :
      (n : ℕ) (xs ys : List A) → n ≤ length ys → take_last n (xs ++ ys) ≡ take_last n ys
  take_last-append n xs ys h =
      let e : length (xs ++ ys) - n ≡ length xs + (length ys - n) =
        omega (arith, length-append xs ys, h) in
      rw e (drop-append (length ys - n) xs ys)

  take-append-drop : (n : ℕ) (xs : List A) → xs ≡ take n xs ++ drop n xs
  take-append-drop zero xs = refl
  take-append-drop (suc n) [] = refl
  take-append-drop (suc n) (x ∷ xs) = ap (λ ys. x ∷ ys) (take-append-drop n xs)

  length-drop : (n : ℕ) (xs : List A) → length (drop n xs) ≡ length xs - n
  length-drop zero xs = omega arith
  length-drop (suc n) [] = omega arith
  length-drop (suc n) (x ∷ xs) = omega (arith, length-drop n xs)

  pub take_last-take_last :
      (n m : ℕ) (xs : List A) → n ≤ m → take_last n (take_last m xs) ≡ take_last n xs
  take_last-take_last n m xs h = elim (Bool-cases (leb (length xs) m)) [
    | inl e ↦ let z : length xs - m ≡ 0 = ground (arith, e) in rw z refl
    | inr e ↦
        let front = take (length xs - m) xs in
        let enough : n ≤ length (take_last m xs) =
          ground (arith, length-drop (length xs - m) xs, h, e) in
        sym (take_last-append n front (take_last m xs) enough)
        ∙ ap (take_last n) (sym (take-append-drop (length xs - m) xs))
  ]

  pub All-drop {κ} : (P : A → Type κ) (n : ℕ) (xs : List A) → All P xs → All P (drop n xs)
  All-drop P zero xs h = h
  All-drop P (suc n) [] h = tt
  All-drop P (suc n) (x ∷ xs) (h, hs) = All-drop P n xs hs

  pub All-append_right {κ} : (P : A → Type κ) (xs ys : List A) → All P (xs ++ ys) → All P ys
  All-append_right P [] ys h = h
  All-append_right P (x ∷ xs) ys (h, hs) = All-append_right P xs ys hs

  pub All-take_last {κ} : (P : A → Type κ) (n : ℕ) (xs : List A) → All P xs → All P (take_last n xs)
  All-take_last P n xs h = All-drop P (length xs - n) xs h

module _ {ℓ} {A B : Type ℓ} (f : A → B) where
  map-drop : (n : ℕ) (xs : List A) → map f (drop n xs) ≡ drop n (map f xs)
  map-drop zero xs = refl
  map-drop (suc n) [] = refl
  map-drop (suc n) (x ∷ xs) = map-drop n xs

  pub map-take_last : (n : ℕ) (xs : List A) → map f (take_last n xs) ≡ take_last n (map f xs)
  map-take_last n xs = rw (length-map f xs) (map-drop (length xs - n) xs)
