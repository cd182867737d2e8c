-- ===== src/Prelude/Text.antt =====
-- JavaScript's `trim`, and its white space (which is also the `\\s` of a pattern).
use Prim.Native.Nat.{ℕ, zero, suc, ◌+◌, compare, Ordering}
use Prim.Native.Char.{Char, code}
use Prim.Native.String.{String, [], ◌∷◌}
use mathlib.Core.List.{List}
use mathlib.Core.Bool.{Bool, true, false, ◌&&◌, ◌||◌}
use mathlib.Core.Path.{◌≡◌, refl, ap, ◌∙◌}
use mathlib.Core.Logic.{inl, inr}
use gpao_t.Prelude.Tests.{leb, if◌then◌else◌, append, Bool-cases}

abbrev pub code_in : ℕ → ℕ → ℕ → Bool
code_in lo hi c = leb lo c && leb c hi

-- White space and line ends, as ECMAScript lists them.
unfoldable pub is_space : ℕ → Bool
is_space c =
    code_in 9 13 c
    || code_in 32 32 c
    || code_in 160 160 c
    || code_in 0x1680 0x1680 c
    || code_in 0x2000 0x200a c
    || code_in 0x2028 0x2029 c
    || code_in 0x202f 0x202f c
    || code_in 0x205f 0x205f c
    || code_in 0x3000 0x3000 c
    || code_in 0xfeff 0xfeff c

trim_start : String → String
unfolding is_space
trim_start [] = []
trim_start (c ∷ s) = let rest = trim_start s in if is_space (code c) then rest else c ∷ s

-- White space goes from the end only where nothing else follows it.
push_kept : Char → String → String
unfolding is_space
push_kept c [] = if is_space (code c) then [] else c ∷ []
push_kept c (d ∷ s) = c ∷ d ∷ s

trim_end : String → String
unfolding push_kept
trim_end [] = []
trim_end (c ∷ s) = push_kept c (trim_end s)

unfoldable pub trim : String → String
unfolding trim_start trim_end
trim s = trim_end (trim_start s)

trims : trim "  a b\t" ≡ "a b"
unfolding trim
trims = refl

-- The characters that pass, in order: a global `replace` by the empty text of those that do not.
abbrev pub keep_chars : (ℕ → Bool) → String → String
keep_chars p [] = []
keep_chars p (c ∷ s) = let rest = keep_chars p s in if p (code c) then c ∷ rest else rest

-- `s.slice(0, n)`, where every character is one UTF-16 unit.
abbrev pub take_chars : ℕ → String → String
take_chars zero s = []
take_chars (suc n) [] = []
take_chars (suc n) (c ∷ s) = c ∷ take_chars n s

abbrev pub is_digit : ℕ → Bool
is_digit c = code_in 48 57 c

abbrev pub is_ascii_lower : ℕ → Bool
is_ascii_lower c = code_in 97 122 c

abbrev pub is_ascii_upper : ℕ → Bool
is_ascii_upper c = code_in 65 90 c

-- `s.length`: a character past U+FFFF is two UTF-16 units.
abbrev pub units : String → ℕ
units [] = 0
units (c ∷ s) = (if leb (code c) 0xffff then 1 else 2) + units s

same_code : Char → Char → Bool
same_code c d = elim (compare (code c) (code d)) [ Ordering.eq ↦ true | _ ↦ false ]

is_prefix : String → String → Bool
is_prefix [] s = true
is_prefix (c ∷ t) [] = false
is_prefix (c ∷ t) (d ∷ s) = same_code c d && is_prefix t s

-- `s.includes(t)`
unfoldable pub includes : String → String → Bool
unfolding is_prefix same_code
includes [] t = is_prefix t []
includes (c ∷ s) t = is_prefix t (c ∷ s) || includes s t

abbrev pub has_code : ℕ → ℕ → Bool
has_code a c = elim (compare a c) [ Ordering.eq ↦ true | _ ↦ false ]

-- The character at a position, as a text.
abbrev pub nth_char : ℕ → String → String
nth_char n [] = []
nth_char zero (c ∷ s) = c ∷ []
nth_char (suc n) (c ∷ s) = nth_char n s

-- `texts.join(between)`
abbrev pub join : String → List String → String
join between List.[] = []
join between (List.◌∷◌ s List.[]) = s
join between (List.◌∷◌ s rest) = append s (append between (join between rest))

abbrev pub concat : List String → String
concat List.[] = []
concat (List.◌∷◌ s rest) = append s (concat rest)

-- A text with no white space at its start.
abbrev StartsKept : String → Type 0
StartsKept [] = Unit
StartsKept (c ∷ s) = is_space (code c) ≡ false

trim_start-StartsKept : (s : String) → StartsKept (trim_start s)
unfolding trim_start
trim_start-StartsKept [] = tt
trim_start-StartsKept (c ∷ s) = elim (Bool-cases (is_space (code c))) [
  | inl e ↦ rw e (trim_start-StartsKept s)
  | inr e ↦ rw e e
]

trim_start-kept : (s : String) → StartsKept s → trim_start s ≡ s
unfolding trim_start
trim_start-kept [] h = refl
trim_start-kept (c ∷ s) h = rw h refl

push_kept-StartsKept :
    (c : Char) (s : String) → is_space (code c) ≡ false → StartsKept (push_kept c s)
unfolding push_kept
push_kept-StartsKept c [] h = rw h h
push_kept-StartsKept c (d ∷ s) h = h

trim_end-StartsKept : (s : String) → StartsKept s → StartsKept (trim_end s)
unfolding trim_end
trim_end-StartsKept [] h = tt
trim_end-StartsKept (c ∷ s) h = push_kept-StartsKept c (trim_end s) h

trim_end-push_kept : (c : Char) (s : String) → trim_end (push_kept c s) ≡ push_kept c (trim_end s)
unfolding trim_end push_kept
trim_end-push_kept c [] = elim (Bool-cases (is_space (code c))) [
  | inl e ↦ rw e refl
  | inr e ↦ rw e (rw e refl)
]
trim_end-push_kept c (d ∷ s) = refl

trim_end-trim_end : (s : String) → trim_end (trim_end s) ≡ trim_end s
unfolding trim_end
trim_end-trim_end [] = refl
trim_end-trim_end (c ∷ s) =
    trim_end-push_kept c (trim_end s) ∙ ap (push_kept c) (trim_end-trim_end s)

pub trim-trim : (s : String) → trim (trim s) ≡ trim s
unfolding trim
trim-trim s =
    rw (trim_start-kept (trim s) (trim_end-StartsKept _ (trim_start-StartsKept s)))
      (trim_end-trim_end (trim_start s))
