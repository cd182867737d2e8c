-- ===== src/Memory/Words.antt =====
-- The text functions of src/core/memory-candidate-review-queue.js: `slug`, `replayTokens`,
-- `scoreOutput`, and the JSON text of an approval's binding.
use Prim.Native.Char.{Char, code}
use Prim.Native.String.{String}
use gpao_t.Prelude.{
  ℕ, ◌/◌, ◌%◌, ◌≡◌, refl, Bool, false, not, ◌&&◌, ◌||◌, Option, none, some, List, if◌then◌else◌,
  or_text, append, filter, length, unique, trim, is_space, take_chars, code_in, is_digit,
  is_ascii_lower, has_code, units, includes, leb, nth_char, concat,
}
use mathlib.Core.List
use mathlib.Core.List.{[], ◌∷◌}

-- `[a-z0-9가-힣]`
abbrev in_slug : ℕ → Bool
in_slug c = is_ascii_lower c || is_digit c || code_in 0xac00 0xd7a3 c

-- A run of other characters becomes one `-`; none is put before the first kept character, and one
-- is put after a kept character only when another follows.
unfoldable pub slug_from : Bool → Bool → String → String
slug_from started gap String.[] = String.[]
slug_from started gap (String.◌∷◌ c s) =
    let kept = in_slug (code c) in
    let rest = slug_from (started || kept) (not kept) s in
    if kept
    then if started && gap then append "-" (String.◌∷◌ c rest) else String.◌∷◌ c rest
    else rest

unfoldable pub slug_text : String → String
unfolding slug_from
slug_text s = or_text (take_chars 80 (slug_from false false s)) "candidate"

-- `[\s,.;:!?()[\]{}"'`]`
is_separator : ℕ → Bool
unfolding is_space
is_separator c =
    is_space c
    || has_code 44 c
    || has_code 46 c
    || has_code 59 c
    || has_code 58 c
    || has_code 33 c
    || has_code 63 c
    || has_code 40 c
    || has_code 41 c
    || has_code 91 c
    || has_code 93 c
    || has_code 123 c
    || has_code 125 c
    || has_code 34 c
    || has_code 39 c
    || has_code 96 c

-- The words between separators, the first of which is still being read. Empty words stay, as they
-- do at the ends of `split`; the length test drops them.
unfoldable pub split_from : String → String → List String
unfolding is_separator
split_from word String.[] = word ∷ []
split_from word (String.◌∷◌ c s) =
    let cut = is_separator (code c) in
    let rest = split_from (if cut then "" else append word (String.◌∷◌ c String.[])) s in
    if cut then word ∷ rest else rest

-- The distinct words of three units or more, of a text that is in lower case.
unfoldable pub replay_tokens : String → List String
unfolding split_from
replay_tokens lowered =
    unique (filter (λ t. leb 3 (units t)) (List.map trim (split_from "" lowered)))

-- How many expected words a text that is in lower case contains.
unfoldable pub matched : String → List String → ℕ
matched lowered expected = length (filter (includes lowered) expected)

-- The lower-case hexadecimal digit of a number below 16.
hex_digit : ℕ → String
hex_digit n = nth_char n "0123456789abcdef"

-- A character inside a JSON string.
json_char : Char → String
unfolding hex_digit
json_char c =
    let n = code c in
    if has_code 34 n
    then "\\\""
    else if has_code 92 n
    then "\\\\"
    else if has_code 8 n
    then "\\b"
    else if has_code 9 n
    then "\\t"
    else if has_code 10 n
    then "\\n"
    else if has_code 12 n
    then "\\f"
    else if has_code 13 n
    then "\\r"
    else if leb n 31
    then append "\\u00" (append (hex_digit (n / 16)) (hex_digit (n % 16)))
    else String.◌∷◌ c String.[]

json_body : String → String
unfolding json_char
json_body String.[] = String.[]
json_body (String.◌∷◌ c s) = append (json_char c) (json_body s)

-- `JSON.stringify` of a text, and of a text or null.
json_text : String → String
unfolding json_body
json_text s = append "\"" (append (json_body s) "\"")

json_option : Option String → String
unfolding json_text
json_option none = "null"
json_option (some s) = json_text s

-- The binding trace of `buildApprovalProposalFromApplyRequest`.
unfoldable pub binding_trace :
    Option String → String → String → Option String → Option String → String
unfolding json_option
binding_trace candidate_id target_id target_scope user_turn_ref approval_reference = concat (
    "{\"candidateId\":"
    ∷ json_option candidate_id
    ∷ ",\"targetId\":"
    ∷ json_text target_id
    ∷ ",\"targetScope\":"
    ∷ json_text target_scope
    ∷ ",\"userTurnRef\":"
    ∷ json_option user_turn_ref
    ∷ ",\"approvalReference\":"
    ∷ json_option approval_reference
    ∷ "}"
    ∷ [])

traced :
    binding_trace (some "a\"b") "t" "s" none (some "r")
    ≡ "{\"candidateId\":\"a\\\"b\",\"targetId\":\"t\",\"targetScope\":\"s\",\"userTurnRef\":null,\"approvalReference\":\"r\"}"
unfolding binding_trace
traced = refl

slugs : (slug_text " a--b c! " ≡ "a-b-c") × (slug_text "!" ≡ "candidate")
unfolding slug_text
slugs = (refl, refl)

tokens : replay_tokens "use the tool, the one" ≡ "use" ∷ "the" ∷ "tool" ∷ "one" ∷ []
unfolding replay_tokens trim includes is_space
tokens = refl
