-- ===== src/Storage/Tests.antt =====
-- A file of three lines, each of one character: `1`, `0` and `1`, and then one that is no JSON.
use gpao_t.Prelude.{
  ℕ, String, Bool, true, false, ◌≡◌, refl, List, [], ◌∷◌, ◌++◌, map, if◌then◌else◌, eq_nat,
  take_last, take, none, some, arith, is_empty, returned,
}
use mathlib.Core.List.{reverse}
use gpao_t.Storage.{
  Parsed, invalid, falsy, record_of, read_jsonl_tail, newest_of, read_text_tail, lines_of,
}
use gpao_t.Storage.Lines.{IsLine}
use gpao_t.Storage.Records.{TailRead, window_lines, read_jsonl_tail-TailRead}
use gpao_t.Storage.RoundTrip.{file_of, read_jsonl_tail-whole_file, read_jsonl_tail-appended}
use gpao_t.Storage.Dedupe.{first_of_keys, room, newest_of-first_of_keys}

abbrev digit : ℕ → Parsed Bool
digit byte =
    if eq_nat byte 49 then record_of true else if eq_nat byte 48 then record_of false else invalid

abbrev parse : List ℕ → Parsed Bool
parse [] = falsy
parse (byte ∷ line) = digit byte

abbrev encode : Bool → List ℕ
encode true = 49 ∷ []
encode false = 48 ∷ []

abbrev records : List Bool
records = true ∷ false ∷ true ∷ []

abbrev file : List ℕ
file = file_of (map encode records)

abbrev first_digit : List ℕ → Bool
first_digit [] = false
first_digit (byte ∷ line) = eq_nat byte 49

-- A window that starts at a line's start loses that line.
cut_window : read_text_tail 2 file ≡ []
unfolding read_text_tail
cut_window = refl

-- A limit of 0 gives all records.
no_limit : read_jsonl_tail parse 0 none false 100 (some file) ≡ returned records
unfolding read_jsonl_tail
no_limit = refl

read_jsonl_tail-TailRead_example :
    TailRead parse none 2 false
      (window_lines parse 100 2 (file ++ 50 ∷ []))
      (read_jsonl_tail parse 2 none false 100 (some (file ++ 50 ∷ [])))
read_jsonl_tail-TailRead_example = read_jsonl_tail-TailRead parse none 2 false 100 (file ++ 50 ∷ [])

read_jsonl_tail-whole_file_example :
    read_jsonl_tail parse 1 none false 3 (some file)
    ≡ returned (take_last 1 (map first_digit (lines_of file)))
unfolding lines_of read_text_tail
read_jsonl_tail-whole_file_example =
    read_jsonl_tail-whole_file parse first_digit 1 false 3 file (omega arith)
      (refl, (refl, (refl, tt))) (omega arith)

encode-IsLine : (b : Bool) → IsLine (encode b)
encode-IsLine true = (refl, tt)
encode-IsLine false = (refl, tt)

encode-more : (b : Bool) → is_empty (encode b) ≡ false
encode-more true = refl
encode-more false = refl

parse-encode : (b : Bool) → parse (encode b) ≡ record_of b
parse-encode true = refl
parse-encode false = refl

read_jsonl_tail-appended_example :
    read_jsonl_tail parse 2 none false 100 (some (file_of (map encode records)))
    ≡ returned (take_last 2 records)
read_jsonl_tail-appended_example =
    read_jsonl_tail-appended parse encode 2 false 100 records encode-IsLine encode-more parse-encode
      (omega arith) (omega arith)

abbrev key : Bool → String
key true = "yes"
key false = ""

newest_of-first_of_keys_example :
    newest_of (some key) 5 records
    ≡ reverse (take (room key 5 0) (first_of_keys key [] (reverse records)))
newest_of-first_of_keys_example = newest_of-first_of_keys key 5 records
