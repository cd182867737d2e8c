-- ===== src/Turn/Tests.antt =====
-- A turn that takes up a restaurant of the session before, and one without a text.
use gpao_t.Prelude.{
  String, true, false, ◌≡◌, ◌≢◌, refl, none, some, [], ◌∷◌, ◌++◌, includes, sort_desc,
}
use gpao_t.Policy.{Signals}
use gpao_t.Admission.{ready}
use gpao_t.Authority.{RiskPattern}
use gpao_t.Continuity as Continuity
use gpao_t.Continuity.{Event, Referent, build_ledger}
use gpao_t.Continuity.Handing.{auto_carry, build_handoff, cell_of_referent, build_continuity_cells}
use gpao_t.Wiki.{Files}
use gpao_t.Turn.{Env, PriorFlow, SessionOverlay, build_overlay, turn_with, run_turn, core_cells}
use gpao_t.Turn.Contract.{Turned, run_turn-Turned}
use gpao_t.Turn.Carried.{turn_with-carried}

abbrev continuity : Continuity.Env
continuity = record { lower = λ s. s; fixed2 = λ n. n }

abbrev word : String → RiskPattern
word w = record { test = λ text. includes text w; replacements = [] }

abbrev env : Env
env = record {
  now = "2026-06-01T09:00:00.000Z";
  continuity = continuity;
  patterns = record {
    release = word "deploy";
    deletion = word "delete";
    secret = word "secret";
    send = word "send";
    automation = word "cron";
    execution_prefixes = λ text. [];
    negated_prefix = λ prefix. false;
    korean_execution = λ text. false;
    korean_negated = λ text. false;
  };
}

abbrev signals : Signals
signals = record { release = false; follow_up = true; package_word = false; work_surface = false }

abbrev place : Referent
place = record {
  entity = "청담동 팔식당";
  kind = "place";
  aliases = "팔식당" ∷ "거기" ∷ [];
  safe_followup_hints = "후기" ∷ [];
  source_session_id = "telegram.previous";
  last_user_intent = "";
  last_assistant_action = "";
  confidence = 880;
  observed_at = "";
  expires_after_turns = 3;
}

abbrev flow : PriorFlow
flow = record {
  flow_key = "flow";
  active_target_id = none;
  new_session = true;
  referents = place ∷ [];
}

abbrev files : Files
files = record { wiki = none; cells = none }

abbrev question : String
question = "거기 후기는 어때?"

run_turn-Turned_example :
    Turned env.now question files (run_turn env signals question (some flow) files)
run_turn-Turned_example = run_turn-Turned env signals question (some flow) files

abbrev overlay : SessionOverlay
overlay = build_overlay continuity signals question "follow_up" (some flow)

carries : overlay.handoff.decision ≡ auto_carry
unfolding build_overlay build_handoff includes sort_desc
carries = refl

takes_place : overlay.handoff.active_referent ≡ some place
unfolding build_overlay build_handoff includes sort_desc
takes_place = refl

named : place.entity ≢ ""
named h = cc

turn_with-carried_example :
    ((turn_with env question "follow_up" overlay
        (build_continuity_cells continuity overlay.handoff ++ core_cells)).packet.status
      ≡ ready)
    × ((turn_with env question "follow_up" overlay
          (build_continuity_cells continuity overlay.handoff ++ core_cells)).packet.strongest_anchor
        ≡ some (cell_of_referent continuity overlay.handoff place).id)
turn_with-carried_example =
    turn_with-carried env question "follow_up" overlay place core_cells carries takes_place named
