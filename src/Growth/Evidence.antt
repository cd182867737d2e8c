-- ===== src/Growth/Evidence.antt =====
-- How many recoveries of a target the history of growth holds, and that the newest fifty are among them.
use gpao_t.Prelude.{
  ◌+◌, ℕ, zero, suc, ◌-◌, ◌≤◌, String, Bool, true, ◌&&◌, ◌≡◌, refl, List, [], ◌∷◌, ◌++◌, map, ◌==◌,
  if◌then◌else◌, any, length, drop, All, Bool-cases, inl, inr, arith, eq_refl,
}
use gpao_t.Storage.{slice_last}
use gpao_t.Growth.{Recovery, about, read_history}

-- How many recoveries of a history are of a target.
abbrev pub count_about : String → List Recovery → ℕ
count_about target [] = 0
count_about target (r ∷ history) =
    (if r.target == target then 1 else 0) + count_about target history

any-drop {ℓ} :
    {A : Type ℓ} (q : A → Bool) (k : ℕ) (xs : List A) → any q (drop k xs) ≡ true → any q xs ≡ true
any-drop q zero xs h = h
any-drop q (suc k) [] h = cc
any-drop q (suc k) (x ∷ xs) h = ground (arith, any-drop q k xs h)

pub any-slice_last {ℓ} :
    {A : Type ℓ} (q : A → Bool) (n : ℕ) (xs : List A)
    → any q (slice_last n xs) ≡ true
    → any q xs ≡ true
unfolding slice_last
any-slice_last q zero xs h = h
any-slice_last q (suc n) xs h = any-drop q (length xs - suc n) xs h

pub any-read_history :
    (q : Recovery → Bool) (n : ℕ) (history : List Recovery)
    → any q (read_history n history) ≡ true
    → any q history ≡ true
unfolding read_history
any-read_history q n history h = any-slice_last q n history h

pub count_about-append :
    (target : String) (xs ys : List Recovery)
    → count_about target (xs ++ ys) ≡ count_about target xs + count_about target ys
count_about-append target [] ys = omega arith
count_about-append target (r ∷ xs) ys = omega (arith, count_about-append target xs ys)

count_about-drop :
    (target : String) (k : ℕ) (xs : List Recovery)
    → count_about target (drop k xs) ≤ count_about target xs
count_about-drop target zero xs = omega arith
count_about-drop target (suc k) [] = omega arith
count_about-drop target (suc k) (r ∷ xs) = omega (arith, count_about-drop target k xs)

count_about-slice_last :
    (target : String) (n : ℕ) (xs : List Recovery)
    → count_about target (slice_last n xs) ≤ count_about target xs
unfolding slice_last
count_about-slice_last target zero xs = omega arith
count_about-slice_last target (suc n) xs = count_about-drop target (length xs - suc n) xs

length-about :
    (target : String) (xs : List Recovery) → length (about target xs) ≡ count_about target xs
length-about target [] = refl
length-about target (r ∷ xs) = elim (Bool-cases (r.target == target)) [
  | inl e ↦ rw e (omega (arith, length-about target xs))
  | inr e ↦ rw e (omega (arith, length-about target xs))
]

pub length-about-history :
    (target : String) (history : List Recovery)
    → length (about target (read_history 50 history)) ≤ count_about target history
unfolding read_history
length-about-history target history =
    omega
      (arith, length-about target (slice_last 50 history), count_about-slice_last target 50 history)

-- A record of a target in a list of recoveries.
abbrev pub is_record : (target id : String) → Recovery → Bool
is_record target id r = r.id == id && r.target == target

pub All-about :
    (target : String) (xs ys : List Recovery)
    → ((q : Recovery → Bool) → any q ys ≡ true → any q xs ≡ true)
    → All (λ id. any (is_record target id) xs ≡ true) (map (λ r. r.id) (about target ys))
All-about target xs [] k = tt
All-about target xs (r ∷ ys) k =
    let rest = All-about target xs ys (λ q h. k q (ground (arith, h))) in
    elim (Bool-cases (r.target == target)) [
      | inl e ↦ rw e ((k (is_record target r.id) (rw (eq_refl r.id, e) refl), rest))
      | inr e ↦ rw e rest
    ]
