-- ===== src/Updates/Version.antt =====
-- src/core/update-boundary.js: `parseDateVersion` and `compareGpaoTDateVersions`. A part's `Number` is
-- the number that its digits write, rounded by the engine to a double: `round` is an argument.
pub mod Order
use Prim.Native.Char.{Char, code}
use Prim.Native.String.{String}
use gpao_t.Prelude.{
  ℕ, zero, suc, ◌+◌, ◌-◌, ◌*◌, Bool, Option, none, some, List, if◌then◌else◌, append, is_digit, ltb,
  has_code, Outcome, returned, threw, concat, ◌>>=◌,
}
use mathlib.Core.List.{[], ◌∷◌}

-- `\d{n}`: the number that n digits write after what is read, and the rest.
unfoldable pub read_fixed : (count read : ℕ) → String → Option (ℕ × String)
read_fixed zero read s = some (read, s)
read_fixed (suc n) read String.[] = none
read_fixed (suc n) read (String.◌∷◌ c s) =
    let rest = read_fixed n (read * 10 + (code c - 48)) s in
    if is_digit (code c) then rest else none

-- A character of the pattern that stands for itself.
unfoldable pub read_char : ℕ → String → Option String
read_char n String.[] = none
read_char n (String.◌∷◌ c s) = if has_code (code c) n then some s else none

-- `\d*$`: digits up to the end of the text.
unfoldable pub read_end : (read : ℕ) → String → Option ℕ
read_end read String.[] = some read
read_end read (String.◌∷◌ c s) =
    let rest = read_end (read * 10 + (code c - 48)) s in if is_digit (code c) then rest else none

pub record DateVersion : Type 0 where
  pub year : ℕ
  pub month : ℕ
  pub day : ℕ
  pub revision : ℕ

module _ (round : ℕ → ℕ) where
  -- `/^(\d{4})\.(\d{2})\.(\d{2})-r(\d+)$/u` and `Number` of its groups.
  unfoldable pub parse_date_version : String → Option DateVersion
  unfolding read_fixed read_char read_end
  parse_date_version text = do
    (year, s1) ← read_fixed 4 0 text
    s2 ← read_char 46 s1
    (month, s3) ← read_fixed 2 0 s2
    s4 ← read_char 46 s3
    (day, s5) ← read_fixed 2 0 s4
    s6 ← read_char 45 s5
    s7 ← read_char 114 s6
    (first, s8) ← read_fixed 1 0 s7
    revision ← read_end first s8
    some (record {
      year = round year;
      month = round month;
      day = round day;
      revision = round revision;
    })

-- What the comparison returns: 1, -1 or 0.
pub data Compared : Type 0 where
  later earlier same : Compared

-- One turn of the loop: the first parts that differ decide.
unfoldable pub compare_part : ℕ → ℕ → Compared → Compared
compare_part a b rest = if ltb b a then later else if ltb a b then earlier else rest

unfoldable pub compare_dates : DateVersion → DateVersion → Compared
unfolding compare_part
compare_dates a b = compare_part a.year b.year (
    compare_part a.month b.month
      (compare_part a.day b.day (compare_part a.revision b.revision same)))

unfoldable pub compare_parsed :
    (left right : String) → Option DateVersion → Option DateVersion → Outcome Compared
unfolding compare_dates
compare_parsed left right (some a) (some b) = returned (compare_dates a b)
compare_parsed left right _ _ =
    threw (concat ("Unsupported GPAO-T date version comparison: " ∷ left ∷ " vs " ∷ right ∷ []))

-- `compareGpaoTDateVersions`
unfoldable pub compare_versions : (round : ℕ → ℕ) → (left right : String) → Outcome Compared
unfolding parse_date_version compare_parsed
compare_versions round left right =
    compare_parsed left right (parse_date_version round left) (parse_date_version round right)
