-- ===== src/Storage.antt =====
-- src/core/storage.js: `readJsonlTail` and `readTextTail`, which read the last records of a file of lines.
-- A file is the list of its bytes. A line break is one byte, which no other character contains in UTF-8,
-- so that lines are lists of bytes too; `JSON.parse` of a line is the argument `parse`.
pub mod Lines
pub mod Window
pub mod Records
pub mod RoundTrip
pub mod Dedupe
mod Tests
use gpao_t.Prelude.{
  ℕ, zero, suc, ◌+◌, ◌-◌, ◌*◌, String, Bool, true, false, not, ◌&&◌, Option, none, some, List, [],
  ◌∷◌, if◌then◌else◌, filter, length, drop, take_last, leb, ltb, eq_nat, has, truthy, is_empty,
  Outcome, returned, threw,
}
use mathlib.Core.List.{reverse}

-- `min(a, b)` and `max(a, b)` of `Math`.
abbrev pub min : ℕ → ℕ → ℕ
min a b = if leb a b then a else b

abbrev pub max : ℕ → ℕ → ℕ
max a b = if leb a b then b else a

-- `xs.slice(-n)`, which is all of `xs` where n is 0.
unfoldable pub slice_last {ℓ} : {A : Type ℓ} → ℕ → List A → List A
slice_last zero xs = xs
slice_last (suc n) xs = take_last (suc n) xs

-- `text.slice(text.indexOf("\n") + 1)`, and nothing where there is no line break.
unfoldable pub after_newline : List ℕ → List ℕ
after_newline [] = []
after_newline (byte ∷ text) = let rest = after_newline text in if eq_nat byte 10 then text else rest

-- `readTextTail`
unfoldable pub read_text_tail : (max_bytes : ℕ) → List ℕ → List ℕ
unfolding after_newline
read_text_tail max_bytes file =
    let size = length file in
    let start = size - min size max_bytes in
    let window = drop start file in if ltb 0 start then after_newline window else window

-- A byte before the first line.
abbrev pub onto_first : ℕ → List (List ℕ) → List (List ℕ)
onto_first byte [] = (byte ∷ []) ∷ []
onto_first byte (line ∷ lines) = (byte ∷ line) ∷ lines

-- `text.split("\n")`
unfoldable pub split_lines : List ℕ → List (List ℕ)
split_lines [] = [] ∷ []
split_lines (byte ∷ text) =
    let rest = split_lines text in if eq_nat byte 10 then [] ∷ rest else onto_first byte rest

-- `text.split("\n").filter(Boolean)`
unfoldable pub lines_of : List ℕ → List (List ℕ)
unfolding split_lines
lines_of text = filter (λ line. not (is_empty line)) (split_lines text)

-- What `JSON.parse` makes of a line: it throws, it gives a value that a test takes as false, or a record.
pub data Parsed (A : Type 0) : Type 0 where
  invalid falsy : Parsed A
  record_of : A → Parsed A

module _ {A : Type 0} (parse : List ℕ → Parsed A) (tolerate_invalid : Bool) where
  unfoldable pub add_parsed : Parsed A → Outcome (List A) → Outcome (List A)
  add_parsed invalid rest = if tolerate_invalid then rest else threw "SyntaxError"
  add_parsed falsy rest = rest
  add_parsed (record_of a) (returned records) = returned (a ∷ records)
  add_parsed (record_of a) (threw message) = threw message

  -- The `map` over the lines, with the `filter(Boolean)` of its results.
  unfoldable pub parse_lines : List (List ℕ) → Outcome (List A)
  unfolding add_parsed
  parse_lines [] = returned []
  parse_lines (line ∷ lines) = add_parsed (parse line) (parse_lines lines)

-- The loop from the newest record on; a record with an empty key is never a repetition. The limit is
-- tested after a record is pushed.
unfoldable pub dedupe_loop :
    {A : Type 0} (key : A → String) → (limit pushed : ℕ) → (seen : List String) → List A → List A
dedupe_loop key limit pushed seen [] = []
dedupe_loop key limit pushed seen (entry ∷ records) =
    let k = key entry in
    let skipped = dedupe_loop key limit pushed seen records in
    let rest = dedupe_loop key limit (suc pushed) (if truthy k then k ∷ seen else seen) records in
    if truthy k && has seen k
    then skipped
    else entry ∷ (if leb limit (suc pushed) then [] else rest)

-- What is returned of the records: the last ones, or the last ones of each key.
unfoldable pub newest_of : {A : Type 0} → Option (A → String) → (limit : ℕ) → List A → List A
unfolding slice_last dedupe_loop
newest_of none limit records = slice_last limit records
newest_of (some key) limit records = reverse (dedupe_loop key limit 0 [] (reverse records))

unfoldable pub finish_read :
    {A : Type 0} → Option (A → String) → (limit : ℕ) → Outcome (List A) → Outcome (List A)
unfolding newest_of
finish_read key limit (returned records) = returned (newest_of key limit records)
finish_read key limit (threw message) = threw message

-- `readJsonlTail`; a file that is missing is none.
unfoldable pub read_jsonl_tail :
    {A : Type 0} (parse : List ℕ → Parsed A)
    → (limit : ℕ) → (dedupe_key : Option (A → String)) → (tolerate_invalid : Bool) → (max_bytes : ℕ)
    → Option (List ℕ)
    → Outcome (List A)
unfolding read_text_tail lines_of slice_last parse_lines finish_read
read_jsonl_tail parse limit dedupe_key tolerate_invalid max_bytes none = returned []
read_jsonl_tail parse limit dedupe_key tolerate_invalid max_bytes (some file) =
    finish_read dedupe_key limit (
      parse_lines parse tolerate_invalid
        (slice_last (max (limit * 4) limit) (lines_of (read_text_tail max_bytes file))))
