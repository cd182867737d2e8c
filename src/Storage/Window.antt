-- ===== src/Storage/Window.antt =====
-- The window at the end of a file holds whole lines.
use gpao_t.Prelude.{
  ℕ, zero, suc, ◌-◌, ◌≤◌, ◌≡◌, refl, ap, ◌∙◌, sym, List, [], ◌∷◌, ◌++◌, length, drop, take, ltb,
  eq_nat, Bool-cases, inl, inr, arith, ◌⊎◌, subst, if-holds,
}
use mathlib.Core.List.{append-nil, append_assoc}
use gpao_t.Storage.{min, after_newline, read_text_tail, lines_of}
use gpao_t.Storage.Lines.{lines_of-newline, lines_of-empty}

-- The line break at which the window is cut, if there is one.
after_newline-cut :
    (text : List ℕ)
    → (after_newline text ≡ []) ⊎ ((before : List ℕ) × (text ≡ before ++ 10 ∷ after_newline text))
unfolding after_newline
after_newline-cut [] = inl refl
after_newline-cut (byte ∷ text) = elim (Bool-cases (eq_nat byte 10)) [
  | inl e ↦ inr ([], ground (arith, e))
  | inr e ↦ elim (after_newline-cut text) [
    | inl n ↦ inl (rw e n)
    | inr (before, c) ↦ inr (byte ∷ before, rw e (ap (λ t. byte ∷ t) c))
  ]
]

take-append-drop {ℓ} : {A : Type ℓ} (n : ℕ) (xs : List A) → xs ≡ take n xs ++ drop n xs
take-append-drop zero xs = refl
take-append-drop (suc n) [] = refl
take-append-drop (suc n) (x ∷ xs) = ap (λ ys. x ∷ ys) (take-append-drop n xs)

-- A text whose lines are the last ones of the file's.
abbrev pub EndsWith : List ℕ → List ℕ → Type 0
EndsWith file text = (front : List (List ℕ)) × (lines_of file ≡ front ++ lines_of text)

after_newline-EndsWith : (before text : List ℕ) → EndsWith (before ++ text) (after_newline text)
after_newline-EndsWith before text = elim (after_newline-cut text) [
  | inl e ↦ (lines_of (before ++ text), rw (e, lines_of-empty) (sym (append-nil _)))
  | inr (skipped, e) ↦ (
    lines_of (before ++ skipped),
    ap (λ t. lines_of (before ++ t)) e
        ∙ ap lines_of (sym (append_assoc before skipped (10 ∷ after_newline text)))
        ∙ lines_of-newline (before ++ skipped) (after_newline text),
  )
]

-- The lines that are read from the end of a file are whole lines, and the last ones of the file.
pub read_text_tail-EndsWith :
    (max_bytes : ℕ) (file : List ℕ) → EndsWith file (read_text_tail max_bytes file)
unfolding read_text_tail
read_text_tail-EndsWith max_bytes file =
    let start = length file - min (length file) max_bytes in
    if-holds (EndsWith file) (ltb 0 start) (after_newline (drop start file)) (drop start file)
      (λ e.
        subst (λ f. EndsWith f (after_newline (drop start file)))
          (sym (take-append-drop start file))
          (after_newline-EndsWith (take start file) (drop start file)))
      (λ e. let whole : start ≡ 0 = ground (arith, e) in ([], rw whole refl))

-- A file that fits into the window is read as a whole.
pub read_text_tail-whole :
    (max_bytes : ℕ) (file : List ℕ) → length file ≤ max_bytes → read_text_tail max_bytes file ≡ file
unfolding read_text_tail
read_text_tail-whole max_bytes file h =
    let start_zero : length file - min (length file) max_bytes ≡ 0 = ground (arith, h) in
    rw start_zero refl
