-- ===== src/Continuity.antt =====
-- src/core/session-continuity.js: the referents of recent turns, and which of them a follow-up carries
-- over. Scores are counted in thousandths; the two-digit rounding of a score is an argument. Each regular
-- expression there lists texts of which one must occur, and is that list here.
pub mod Handing
pub mod Recent
pub mod Carrying
mod Tests
use gpao_t.Prelude.{
  ℕ, ◌+◌, ◌-◌, String, Bool, true, false, not, ◌&&◌, ◌||◌, Option, none, some, List, [], ◌∷◌, ◌++◌,
  map, ◌==◌, if◌then◌else◌, or_text, append, filter, any, includes, leb, is_empty, sort_desc, head?,
  truthy, trim, is_none,
}
use gpao_t.Cell.{Cell, empty_trace, empty_replay}
use gpao_t.Memory.Words.{slug_from}

-- `toLowerCase` of the engine, and `Number(score.toFixed(2))`.
pub record Env : Type 0 where
  pub lower : String → String
  pub fixed2 : ℕ → ℕ

-- A test by an expression that lists texts.
abbrev pub mentions : String → List String → Bool
mentions text words = any (includes text) words

pub record Pattern : Type 0 where
  pub kind : String
  pub words : List String
  pub canonical : String
  pub aliases : List String
  pub safe_followup_hints : List String

-- `REFERENT_PATTERNS`; its optional prefix does not change what matches.
abbrev pub referent_patterns : List Pattern
referent_patterns =
    record {
      kind = "place";
      words = "팔식당" ∷ [];
      canonical = "청담동 팔식당";
      aliases = "팔식당" ∷ "청담동 팔식당" ∷ "거기" ∷ [];
      safe_followup_hints = "후기" ∷ "예약" ∷ "메뉴" ∷ "위치" ∷ "가격" ∷ "영업시간" ∷ [];
    }
    ∷ []

-- `hasReferentFollowUpSignal`
unfoldable pub has_referent_signal : String → Bool
has_referent_signal text = mentions text (
    "거기" ∷ "그곳" ∷ "저기" ∷ "그 집" ∷ "그 가게" ∷ "그거" ∷ "그건" ∷ "그 파일" ∷ "그 작업" ∷ "아까" ∷ "방금" ∷ "이어서" ∷ "계속"
    ∷ "후기" ∷ "예약" ∷ [])

pub record Referent : Type 0 where
  pub entity : String
  pub kind : String
  pub aliases : List String
  pub safe_followup_hints : List String
  pub source_session_id : String
  pub last_user_intent : String
  pub last_assistant_action : String
  pub confidence : ℕ
  pub observed_at : String
  pub expires_after_turns : ℕ

-- A field that is absent is the empty text, or 0.
pub record Event : Type 0 where
  pub text : String
  pub session_id : String
  pub intent : String
  pub assistant_action : String
  pub confidence : ℕ
  pub created_at : String
  pub expires_after_turns : ℕ

-- `inferIntent`
unfoldable pub infer_intent : String → String
infer_intent text =
    if mentions text ("후기" ∷ "리뷰" ∷ [])
    then "후기 확인"
    else if mentions text ("예약" ∷ [])
    then "예약 확인"
    else if mentions text ("메뉴" ∷ "가격" ∷ [])
    then "메뉴/가격 확인"
    else if mentions text ("팔식당" ∷ "청담동" ∷ [])
    then "장소 정보 확인"
    else "최근 대상 언급"

-- `inferAssistantAction`
unfoldable pub infer_assistant_action : String → String
infer_assistant_action text =
    if mentions text ("구이집" ∷ "주소" ∷ "영업시간" ∷ "메뉴" ∷ "특징" ∷ []) then "장소 정보 요약" else "최근 대상 언급"

-- `extractReferentsFromText`
unfoldable pub extract_patterns : String → List Pattern
extract_patterns text = filter (λ p. mentions text p.words) referent_patterns

abbrev pub or_number : ℕ → ℕ → ℕ
or_number n d = if leb n 0 then d else n

-- The `entry` of `buildRecentReferentLedger`; a found referent has a confidence of 0.86.
unfoldable pub referent_of : (now : String) → Event → Pattern → Referent
unfolding infer_intent infer_assistant_action
referent_of now event p = record {
  entity = p.canonical;
  kind = p.kind;
  aliases = p.aliases;
  safe_followup_hints = p.safe_followup_hints;
  source_session_id = or_text event.session_id "unknown-session";
  last_user_intent = or_text event.intent (infer_intent event.text);
  last_assistant_action = or_text event.assistant_action (infer_assistant_action event.text);
  confidence = or_number event.confidence 860;
  observed_at = or_text event.created_at now;
  expires_after_turns = or_number event.expires_after_turns 3;
}

abbrev pub is_same : Referent → Referent → Bool
is_same entry item = item.entity == entry.entity && item.kind == entry.kind

abbrev pub max_of : ℕ → ℕ → ℕ
max_of a b = if leb a b then b else a

-- `Object.assign(existing, entry, { confidence: Math.max(…) })`
abbrev pub merged : Referent → Referent → Referent
merged existing entry = record entry { confidence = max_of existing.confidence entry.confidence }

-- The first referent of the same entity and type is replaced, or the entry comes last.
unfoldable pub note_referent : Referent → List Referent → List Referent
note_referent entry [] = entry ∷ []
note_referent entry (item ∷ items) =
    let rest = note_referent entry items in
    if is_same entry item then merged item entry ∷ items else item ∷ rest

abbrev pub note_all : List Referent → List Referent → List Referent
note_all [] items = items
note_all (entry ∷ entries) items = note_all entries (note_referent entry items)

-- The two nested loops.
unfoldable pub note_events : (now : String) → List Event → List Referent → List Referent
unfolding note_referent extract_patterns referent_of
note_events now [] items = items
note_events now (event ∷ events) items =
    note_events now events
      (note_all (map (referent_of now event) (extract_patterns event.text)) items)

abbrev pub referent_key : Referent → ℕ
referent_key r = r.confidence

-- `buildRecentReferentLedger`, its referents.
unfoldable pub build_ledger : (now : String) → List Event → List Referent
unfolding note_events
build_ledger now events = sort_desc referent_key (note_events now events [])
