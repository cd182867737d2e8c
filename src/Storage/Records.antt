-- ===== src/Storage/Records.antt =====
-- The records that are read from the end of a file, against those of the whole file.
pub mod Last
use gpao_t.Prelude.{
  ℕ, zero, suc, ◌+◌, ◌*◌, ◌≤◌, ◌<◌, String, Bool, true, false, not, ◌&&◌, ◌≡◌, refl, ap, ◌∙◌, sym,
  subst, List, [], ◌∷◌, ◌++◌, map, if◌then◌else◌, length, take_last, drop, any, Option, none, some,
  arith, All, is_empty, Outcome, returned, threw, Bool-cases, inl, inr, ◌⊎◌,
}
use gpao_t.Storage.{
  Parsed, invalid, falsy, record_of, add_parsed, parse_lines, slice_last, lines_of, read_text_tail,
  newest_of, finish_read, read_jsonl_tail, max,
}
use gpao_t.Storage.Window.{EndsWith, read_text_tail-EndsWith, read_text_tail-whole}
use gpao_t.Storage.Lines.{IsLine, lines_of-newline, lines_of-line, lines_of-empty}
use gpao_t.Storage.Records.Last.{
  take_last-append, take_last-take_last, map-take_last, All-take_last, All-append_right,
}

module _ {A : Type 0} (parse : List ℕ → Parsed A) where
  abbrev pub is_invalid : Parsed A → Bool
  is_invalid invalid = true
  is_invalid _ = false

  abbrev pub add_record : Parsed A → List A → List A
  add_record (record_of a) records = a ∷ records
  add_record _ records = records

  -- The records among the lines, whatever the others are.
  abbrev pub records_in : List (List ℕ) → List A
  records_in [] = []
  records_in (line ∷ lines) = add_record (parse line) (records_in lines)

  abbrev pub some_invalid : List (List ℕ) → Bool
  some_invalid lines = any (λ line. is_invalid (parse line)) lines

  -- Lines are parsed with an error for an invalid one, unless it is tolerated.
  pub data LinesRead (tolerate : Bool) (lines : List (List ℕ)) : Outcome (List A) → Type 0 where
    failed :
        tolerate ≡ false
        → some_invalid lines ≡ true
        → LinesRead tolerate lines (threw "SyntaxError")
    read :
        (records : List A)
        → records ≡ records_in lines
        → (not tolerate && some_invalid lines) ≡ false
        → LinesRead tolerate lines (returned records)

  add_parsed-LinesRead :
      (tolerate : Bool) (line : List ℕ) (lines : List (List ℕ)) (p : Parsed A)
      → parse line ≡ p
      → (o : Outcome (List A)) → LinesRead tolerate lines o
      → LinesRead tolerate (line ∷ lines) (add_parsed parse tolerate p o)
  unfolding add_parsed
  add_parsed-LinesRead true line lines invalid h (returned rs) (read r q e) = read rs (rw h q) refl
  add_parsed-LinesRead true line lines invalid h (threw m) (failed e f) = cc
  add_parsed-LinesRead false line lines invalid h o r = failed refl (rw h refl)
  add_parsed-LinesRead tolerate line lines falsy h (returned rs) (read r q e) =
      read rs (rw h q) (rw h e)
  add_parsed-LinesRead tolerate line lines falsy h (threw m) (failed e f) = failed e (rw h f)
  add_parsed-LinesRead tolerate line lines (record_of a) h (returned rs) (read r q e) =
      read (a ∷ rs) (rw h (ap (λ t. a ∷ t) q)) (rw h e)
  add_parsed-LinesRead tolerate line lines (record_of a) h (threw m) (failed e f) =
      failed e (rw h f)

  pub parse_lines-LinesRead :
      (tolerate : Bool) (lines : List (List ℕ))
      → LinesRead tolerate lines (parse_lines parse tolerate lines)
  unfolding parse_lines
  parse_lines-LinesRead true [] = read [] refl refl
  parse_lines-LinesRead false [] = read [] refl refl
  parse_lines-LinesRead tolerate (line ∷ lines) =
      add_parsed-LinesRead tolerate line lines (parse line) refl _
        (parse_lines-LinesRead tolerate lines)

  -- The lines that are parsed: the last ones of the window.
  abbrev pub window_lines : (max_bytes limit : ℕ) → List ℕ → List (List ℕ)
  window_lines max_bytes limit file =
      slice_last (max (limit * 4) limit) (lines_of (read_text_tail max_bytes file))

  -- What reading a file comes to.
  pub data TailRead (key : Option (A → String)) (limit : ℕ) (tolerate : Bool)
      (lines : List (List ℕ)) : Outcome (List A) → Type 0 where
    refused :
        tolerate ≡ false
        → some_invalid lines ≡ true
        → TailRead key limit tolerate lines (threw "SyntaxError")
    answered :
        (not tolerate && some_invalid lines) ≡ false
        → TailRead key limit tolerate lines (returned (newest_of key limit (records_in lines)))

  finish_read-TailRead :
      (key : Option (A → String)) (limit : ℕ) (tolerate : Bool) (lines : List (List ℕ))
      (o : Outcome (List A))
      → LinesRead tolerate lines o
      → TailRead key limit tolerate lines (finish_read key limit o)
  unfolding finish_read
  finish_read-TailRead key limit tolerate lines (threw m) (failed e f) = refused e f
  finish_read-TailRead key limit tolerate lines (returned rs) (read r q e) = rw q (answered e)

  -- Reading throws exactly where an invalid line is among the lines that are parsed and is not
  -- tolerated. Otherwise the answer is the newest of the records in those lines.
  pub read_jsonl_tail-TailRead :
      (key : Option (A → String)) (limit : ℕ) (tolerate : Bool) (max_bytes : ℕ) (file : List ℕ)
      → TailRead key limit tolerate
          (window_lines max_bytes limit file)
          (read_jsonl_tail parse limit key tolerate max_bytes (some file))
  unfolding read_jsonl_tail
  read_jsonl_tail-TailRead key limit tolerate max_bytes file =
      finish_read-TailRead key limit tolerate (window_lines max_bytes limit file) _
        (parse_lines-LinesRead tolerate (window_lines max_bytes limit file))
