-- ===== src/Storage/Lines.antt =====
-- The lines of a text that is put together of texts.
use gpao_t.Prelude.{
  ℕ, Bool, false, not, ◌≡◌, refl, ap, ◌∙◌, List, [], ◌∷◌, ◌++◌, filter, eq_nat, Bool-cases, inl,
  inr, is_empty, All,
}
use gpao_t.Storage.{split_lines, lines_of, onto_first}

pub filter-append {ℓ} :
    {A : Type ℓ} (p : A → Bool) (xs ys : List A) → filter p (xs ++ ys) ≡ filter p xs ++ filter p ys
filter-append p [] ys = refl
filter-append p (x ∷ xs) ys = elim (Bool-cases (p x)) [
  | inl e ↦ rw e (ap (λ zs. x ∷ zs) (filter-append p xs ys))
  | inr e ↦ rw e (filter-append p xs ys)
]

split_lines-more : (text : List ℕ) → is_empty (split_lines text) ≡ false
unfolding split_lines
split_lines-more [] = refl
split_lines-more (byte ∷ text) = elim (Bool-cases (eq_nat byte 10)) [
  | inl e ↦ rw e refl
  | inr e ↦ rw e (onto (split_lines text))
]
  where
    onto : (lines : List (List ℕ)) → is_empty (onto_first byte lines) ≡ false
    onto [] = refl
    onto (l ∷ ls) = refl

onto_first-append :
    (byte : ℕ) (xs ys : List (List ℕ))
    → is_empty xs ≡ false
    → onto_first byte (xs ++ ys) ≡ onto_first byte xs ++ ys
onto_first-append byte [] ys h = cc
onto_first-append byte (x ∷ xs) ys h = refl

pub split_lines-newline :
    (before after : List ℕ)
    → split_lines (before ++ 10 ∷ after) ≡ split_lines before ++ split_lines after
unfolding split_lines
split_lines-newline [] after = refl
split_lines-newline (byte ∷ before) after = elim (Bool-cases (eq_nat byte 10)) [
  | inl e ↦ rw e (ap (λ ls. [] ∷ ls) (split_lines-newline before after))
  | inr e ↦ rw e (
      ap (onto_first byte) (split_lines-newline before after)
      ∙ onto_first-append byte (split_lines before) (split_lines after) (split_lines-more before))
]

pub lines_of-newline :
    (before after : List ℕ) → lines_of (before ++ 10 ∷ after) ≡ lines_of before ++ lines_of after
unfolding lines_of
lines_of-newline before after =
    ap (filter (λ line. not (is_empty line))) (split_lines-newline before after)
    ∙ filter-append (λ line. not (is_empty line)) (split_lines before) (split_lines after)

-- A line that was written: no byte of it is a line break.
abbrev pub IsLine : List ℕ → Type 0
IsLine = All (λ byte. eq_nat byte 10 ≡ false)

split_lines-line : (line : List ℕ) → IsLine line → split_lines line ≡ line ∷ []
unfolding split_lines
split_lines-line [] h = refl
split_lines-line (byte ∷ line) (e, h) = rw (e, split_lines-line line h) refl

pub lines_of-line :
    (line : List ℕ) → IsLine line → is_empty line ≡ false → lines_of line ≡ line ∷ []
unfolding lines_of
lines_of-line line h n = rw (split_lines-line line h, n) refl

pub lines_of-empty : lines_of [] ≡ []
unfolding lines_of split_lines
lines_of-empty = refl
