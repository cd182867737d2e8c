-- ===== src/Storage/RoundTrip.antt =====
-- Reading the end of a file gives what reading the whole file would, and what was appended to it.
use gpao_t.Prelude.{
  ℕ, zero, suc, ◌*◌, ◌≤◌, ◌<◌, Bool, false, ◌≡◌, refl, ap, ◌∙◌, sym, subst, List, [], ◌∷◌, ◌++◌,
  map, length, take_last, none, some, arith, All, is_empty, returned,
}
use gpao_t.Storage.{
  Parsed, record_of, add_parsed, parse_lines, slice_last, lines_of, read_text_tail, newest_of,
  finish_read, read_jsonl_tail, max,
}
use gpao_t.Storage.Window.{read_text_tail-EndsWith, read_text_tail-whole}
use gpao_t.Storage.Lines.{IsLine, lines_of-newline, lines_of-line, lines_of-empty}
use gpao_t.Storage.Records.Last.{
  take_last-append, take_last-take_last, map-take_last, All-take_last, All-append_right,
}

slice_last-positive {ℓ} :
    {A : Type ℓ} (n : ℕ) (xs : List A) → 0 < n → slice_last n xs ≡ take_last n xs
unfolding slice_last
slice_last-positive zero xs h = absurd (omega (arith, h))
slice_last-positive (suc n) xs h = refl

module _ {A : Type 0} (parse : List ℕ → Parsed A) (record_at : List ℕ → A) where
  parse_lines-records :
      (tolerate : Bool) (lines : List (List ℕ))
      → All (λ line. parse line ≡ record_of (record_at line)) lines
      → parse_lines parse tolerate lines ≡ returned (map record_at lines)
  unfolding parse_lines add_parsed
  parse_lines-records tolerate [] h = refl
  parse_lines-records tolerate (line ∷ lines) (h, hs) =
      rw (h, parse_lines-records tolerate lines hs) refl

  -- The last records of lines, through the window of four times as many lines.
  last_records :
      (limit : ℕ) (lines : List (List ℕ))
      → 0 < limit
      → slice_last limit (map record_at (slice_last (max (limit * 4) limit) lines))
        ≡ take_last limit (map record_at lines)
  last_records limit lines h =
      let m = max (limit * 4) limit in
      let wide : 0 < m = ground (arith, h) in
      rw
        (
          slice_last-positive m lines wide,
          slice_last-positive limit (map record_at (take_last m lines)) h,
        )
        (sym (map-take_last record_at limit (take_last m lines))
          ∙ ap (map record_at) (take_last-take_last limit m lines (ground (arith, h)))
          ∙ map-take_last record_at limit lines)

  tail-records :
      (limit : ℕ) (tolerate : Bool) (max_bytes : ℕ) (file : List ℕ)
      → 0 < limit
      → All
          (λ line. parse line ≡ record_of (record_at line))
          (lines_of (read_text_tail max_bytes file))
      → read_jsonl_tail parse limit none tolerate max_bytes (some file)
        ≡ returned (take_last limit (map record_at (lines_of (read_text_tail max_bytes file))))
  unfolding read_jsonl_tail finish_read newest_of
  tail-records limit tolerate max_bytes file h records =
      let m = max (limit * 4) limit in
      let lines = lines_of (read_text_tail max_bytes file) in
      let kept : All (λ line. parse line ≡ record_of (record_at line)) (slice_last m lines) =
        rw (slice_last-positive m lines (ground (arith, h))) (All-take_last _ m lines records) in
      ap (finish_read none limit) (parse_lines-records tolerate (slice_last m lines) kept)
      ∙ ap returned (last_records limit lines h)

  -- Where every line of the file is a record and the window holds at least as many lines as the limit,
  -- which is not 0, a reading without a dedupe key answers with the last records of the whole file.
  pub read_jsonl_tail-whole_file :
      (limit : ℕ) (tolerate : Bool) (max_bytes : ℕ) (file : List ℕ)
      → 0 < limit
      → All (λ line. parse line ≡ record_of (record_at line)) (lines_of file)
      → limit ≤ length (lines_of (read_text_tail max_bytes file))
      → read_jsonl_tail parse limit none tolerate max_bytes (some file)
        ≡ returned (take_last limit (map record_at (lines_of file)))
  read_jsonl_tail-whole_file limit tolerate max_bytes file h records enough =
      let (front, e) = read_text_tail-EndsWith max_bytes file in
      let lines = lines_of (read_text_tail max_bytes file) in
      let P : List ℕ → Type 0 = λ line. parse line ≡ record_of (record_at line) in
      tail-records limit tolerate max_bytes file h
        (All-append_right P front lines (subst (All P) e records))
      ∙ ap returned (
          sym (map-take_last record_at limit lines)
          ∙ ap (map record_at)
              (sym (take_last-append limit front lines enough) ∙ ap (take_last limit) (sym e))
          ∙ map-take_last record_at limit (lines_of file))

-- A file of lines, as `appendAuditEvent` and the other writers append them.
abbrev pub file_of : List (List ℕ) → List ℕ
file_of [] = []
file_of (line ∷ lines) = line ++ 10 ∷ file_of lines

pub lines_of-file_of :
    (lines : List (List ℕ))
    → All IsLine lines
    → All (λ line. is_empty line ≡ false) lines
    → lines_of (file_of lines) ≡ lines
lines_of-file_of [] h n = lines_of-empty
lines_of-file_of (line ∷ lines) (h, hs) (n, ns) =
    lines_of-newline line (file_of lines)
    ∙ rw (lines_of-line line h n, lines_of-file_of lines hs ns) refl

module _ {A : Type 0} (parse : List ℕ → Parsed A) (encode : A → List ℕ) where
  All-encode :
      (P : List ℕ → Type 0) → ((a : A) → P (encode a)) → (xs : List A) → All P (map encode xs)
  All-encode P h [] = tt
  All-encode P h (x ∷ xs) = (h x, All-encode P h xs)

  parse_lines-encoded :
      ((a : A) → parse (encode a) ≡ record_of a)
      → (tolerate : Bool) (records : List A)
      → parse_lines parse tolerate (map encode records) ≡ returned records
  unfolding parse_lines add_parsed
  parse_lines-encoded back tolerate [] = refl
  parse_lines-encoded back tolerate (a ∷ records) =
      rw (back a, parse_lines-encoded back tolerate records) refl

  -- With an encoding into one line that the parser reads back, a file of appended records that fits
  -- into the window is read, without a dedupe key, as its last records, as many as the limit, which is
  -- not 0, says.
  pub read_jsonl_tail-appended :
      (limit : ℕ) (tolerate : Bool) (max_bytes : ℕ) (records : List A)
      → ((a : A) → IsLine (encode a))
      → ((a : A) → is_empty (encode a) ≡ false)
      → ((a : A) → parse (encode a) ≡ record_of a)
      → 0 < limit
      → length (file_of (map encode records)) ≤ max_bytes
      → read_jsonl_tail parse limit none tolerate max_bytes (some (file_of (map encode records)))
        ≡ returned (take_last limit records)
  unfolding read_jsonl_tail finish_read newest_of
  read_jsonl_tail-appended limit tolerate max_bytes records line some_byte back h fits =
      let m = max (limit * 4) limit in
      let wide : 0 < m = ground (arith, h) in
      let whole =
        lines_of-file_of (map encode records) (All-encode IsLine line records)
          (All-encode (λ l. is_empty l ≡ false) some_byte records) in
      rw
        (
          read_text_tail-whole max_bytes (file_of (map encode records)) fits,
          whole,
          slice_last-positive m (map encode records) wide,
          sym (map-take_last encode m records),
          parse_lines-encoded back tolerate (take_last m records),
          slice_last-positive limit (take_last m records) h,
        )
        (ap returned (take_last-take_last limit m records (ground (arith, h))))
