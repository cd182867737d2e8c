-- ===== src/Continuity/Handing.antt =====
-- src/core/session-continuity.js: the score of a referent for a request, the handoff that takes one up, and
-- the cell of a handoff.
use gpao_t.Prelude.{
  ℕ, ◌+◌, ◌-◌, String, Bool, true, false, not, ◌&&◌, ◌||◌, Option, none, some, List, [], ◌∷◌, map,
  ◌==◌, if◌then◌else◌, or_text, append, filter, any, includes, leb, is_empty, sort_desc, trim,
}
use gpao_t.Cell.{Cell, empty_trace, empty_replay}
use gpao_t.Memory.Words.{slug_from}
use gpao_t.Continuity.{Env, Pattern, Referent, extract_patterns, has_referent_signal, mentions}

abbrev pub min_of : ℕ → ℕ → ℕ
min_of a b = if leb a b then a else b

abbrev pub gain : Bool → ℕ → ℕ
gain test n = if test then n else 0

-- `scoreReferentConfidence`
unfoldable pub score_referent : Env → (text : String) → Referent → (follow_up : Bool) → ℕ
score_referent env text r follow_up =
    let normalized = env.lower text in
    min_of 980 (
      env.fixed2 (
        gain follow_up 420
        + gain (any (λ alias. includes normalized (env.lower alias)) r.aliases) 320
        + gain (mentions normalized ("거기" ∷ "그곳" ∷ "그 집" ∷ "그 가게" ∷ "저기" ∷ []) && r.kind == "place")
            280
        + gain (any (λ hint. includes normalized (env.lower hint)) r.safe_followup_hints) 160
        + min_of 120 (r.confidence - 750)))

-- A referent with its score.
abbrev pub Rated : Type 0
Rated = Referent × ℕ

abbrev pub rated_key : Rated → ℕ
rated_key item = item.1

abbrev pub first_referent : List Rated → Option Referent
first_referent [] = none
first_referent ((r, score) ∷ items) = some r

-- `selectBestReferent`
unfoldable pub select_best :
    Env → (text : String) → List Referent → (follow_up : Bool) → Option Referent
unfolding score_referent
select_best env text referents follow_up =
    if not follow_up
    then none
    else first_referent (
        sort_desc rated_key (
          filter (λ item. leb 450 item.1)
            (map (λ r. (r, score_referent env (env.lower text) r follow_up)) referents)))

pub data Continuity : Type 0 where
  current_request_override not_needed auto_carry clarify_short ask_target : Continuity

-- `classifyContinuityDecision`
unfoldable pub classify_decision : (confidence : ℕ) → (follow_up overrides : Bool) → Continuity
classify_decision confidence follow_up overrides =
    if overrides
    then current_request_override
    else if not follow_up
    then not_needed
    else if leb 750 confidence
    then auto_carry
    else if leb 450 confidence
    then clarify_short
    else ask_target

-- `hasExplicitNewTopic`
unfoldable pub has_new_topic : String → List Pattern → Bool
unfolding has_referent_signal
has_new_topic text explicit =
    is_empty explicit
    && (mentions text
          ("테슬라" ∷ "주가" ∷ "국제 정세" ∷ "뉴스" ∷ "날씨" ∷ "환율" ∷ "비트코인" ∷ "코딩" ∷ "디자인" ∷ "문서" ∷ [])
        && not (has_referent_signal text))

abbrev pub is_carried : Continuity → Bool
is_carried auto_carry = true
is_carried _ = false

abbrev pub carried_hint : Continuity → String → String
carried_hint auto_carry entity = append entity " 기준으로 이어서 보면 됩니다."
carried_hint clarify_short entity = append "아까 말한 " (append entity " 말씀이 맞는지 짧게 확인합니다.")
carried_hint _ entity = "대상을 한 번만 짧게 확인합니다."

-- `buildUserFacingHint`
unfoldable pub user_facing_hint : Continuity → Option Referent → String
user_facing_hint decision none = "이어받을 최근 대상이 충분히 선명하지 않습니다."
user_facing_hint decision (some r) = carried_hint decision r.entity

pub record Handoff : Type 0 where
  pub new_session : Bool
  pub follow_up : Bool
  pub overrides : Bool
  pub decision : Continuity
  pub confidence : ℕ
  pub active_referent : Option Referent
  pub hint : String

abbrev pub score_option : Env → String → Option Referent → Bool → ℕ
score_option env text none follow_up = 0
score_option env text (some r) follow_up = score_referent env text r follow_up

-- The object that `buildSessionContinuityHandoff` returns for the best referent.
unfoldable pub handoff_for :
    Env → (text : String) → (new_session follow_up overrides : Bool) → Option Referent → Handoff
unfolding classify_decision user_facing_hint score_referent
handoff_for env text new_session follow_up overrides best =
    let confidence = score_option env text best follow_up in
    let decision = classify_decision confidence follow_up overrides in
    record {
      new_session = new_session;
      follow_up = follow_up;
      overrides = overrides;
      decision = decision;
      confidence = confidence;
      active_referent = best;
      hint = user_facing_hint decision best;
    }

-- `buildSessionContinuityHandoff`; `referents` are those of the prior flow's ledger, empty without one.
unfoldable pub build_handoff :
    Env → (text kind : String) → (new_session : Bool) → (referents : List Referent) → Handoff
unfolding extract_patterns has_new_topic has_referent_signal select_best handoff_for
build_handoff env text kind new_session referents =
    let follow_up = kind == "follow_up" || has_referent_signal text in
    let overrides = has_new_topic text (extract_patterns text) in
    let selected = select_best env text referents follow_up in
    handoff_for env text new_session follow_up overrides (if overrides then none else selected)

-- `slugify`
unfoldable pub slugify : Env → String → String
slugify env value = or_text (slug_from false false (env.lower (trim value))) "unknown"

-- `buildSessionContinuityTCell` of an active referent.
unfoldable pub cell_of_referent : Env → Handoff → Referent → Cell
unfolding slugify
cell_of_referent env h r = record {
  id = append "tcell.session-continuity." (slugify env r.entity);
  pi =
      "When a new-session follow-up uses a Korean referent expression, recover the recent entity only if confidence is bounded and current request does not override it.";
  x = r.entity ∷ h.hint ∷ [];
  anchor = append "referent:" r.entity;
  radius = record {
    scope = "session_handoff";
    valid_for = "follow_up" ∷ [];
    invalid_for = "unrelated_topic" ∷ "explicit_new_topic" ∷ [];
  };
  source_refs = r.source_session_id ∷ [];
  contradicts = [];
  weights = some (record {
    relevance = h.confidence;
    confidence = h.confidence;
    freshness = 940;
    risk = 180;
    cost = 30;
  });
  lifecycle = "reviewed";
  authority = record {
    allowed_use = "retrieve" ∷ "admit" ∷ "explain" ∷ "draft" ∷ [];
    blocked_use = "external_action" ∷ "durable_mutation" ∷ [];
  };
  replay = empty_replay;
  trace = record empty_trace { created_from = "session-continuity-handoff" };
  admission_role = "";
  downgrade_reason = "";
  answer_anchor_eligible = some (is_carried h.decision);
  mesh_score = 0;
}

abbrev pub continuity_cells : Env → Handoff → Option Referent → List Cell
continuity_cells env h none = []
continuity_cells env h (some r) = cell_of_referent env h r ∷ []

-- `buildSessionContinuityTCell`, as the list that the context runtime spreads.
unfoldable pub build_continuity_cells : Env → Handoff → List Cell
unfolding cell_of_referent
build_continuity_cells env h = continuity_cells env h h.active_referent
