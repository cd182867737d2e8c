-- ===== src/Continuity/Tests.antt =====
-- A restaurant that was spoken of, and a follow-up that takes it up.
use gpao_t.Prelude.{
  includes, sort_desc, ℕ, String, true, ◌||◌, ◌≡◌, refl, List, [], ◌∷◌, ◌==◌, All, IsDescending,
}
use gpao_t.Continuity.{
  Env, Event, Referent, build_ledger, referent_key, has_referent_signal, extract_patterns,
}
use gpao_t.Continuity.Handing.{auto_carry, build_handoff, has_new_topic}
use gpao_t.Continuity.Recent.{IsDistinct, Covers, entries_of, build_ledger-IsComplete}
use gpao_t.Continuity.Carrying.{Carrying, build_handoff-Carrying}

abbrev pub env : Env
env = record { lower = λ s. s; fixed2 = λ n. n }

abbrev event : (confidence : ℕ) → Event
event confidence = record {
  text = "청담동 팔식당은 숙성 한돈 돼지고기 구이집이에요.";
  session_id = "telegram.previous";
  intent = "장소 정보 확인";
  assistant_action = "";
  confidence = confidence;
  created_at = "";
  expires_after_turns = 0;
}

abbrev pub ledger : List Referent
ledger = build_ledger "now" (event 880 ∷ event 700 ∷ [])

abbrev question : String
question = "거기 후기는 어때?"

build_ledger-IsComplete_example :
    IsDistinct (build_ledger "now" (event 880 ∷ event 700 ∷ []))
    × IsDescending referent_key (build_ledger "now" (event 880 ∷ event 700 ∷ []))
    × All
        (λ e.
          All
            (λ a. Covers a (build_ledger "now" (event 880 ∷ event 700 ∷ [])))
            (entries_of "now" e))
        (event 880 ∷ event 700 ∷ [])
build_ledger-IsComplete_example = build_ledger-IsComplete "now" (event 880 ∷ event 700 ∷ [])

carried_over : (build_handoff env question "follow_up" true ledger).decision ≡ auto_carry
unfolding build_handoff includes sort_desc build_ledger
carried_over = refl

build_handoff-Carrying_example :
    Carrying env question
      ("follow_up" == "follow_up" || has_referent_signal question)
      (has_new_topic question (extract_patterns question))
      ledger
      (build_handoff env question "follow_up" true ledger)
build_handoff-Carrying_example = build_handoff-Carrying env question refl "follow_up" true ledger
