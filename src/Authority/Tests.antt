-- ===== src/Authority/Tests.antt =====
-- Decisions with simple patterns: one word for each risk.
use gpao_t.Prelude.{String, false, ◌≡◌, refl, [], ◌∷◌, has, includes, if◌then◌else◌}
use gpao_t.Authority.{RiskPattern, Patterns, build_decision, release_gate}
use gpao_t.Authority.Gates.{Locked, needs_gate, build_decision-Locked}

abbrev word : String → RiskPattern
word w = record { test = λ text. includes text w; replacements = [] }

abbrev pub patterns : Patterns
patterns = record {
  release = word "deploy";
  deletion = word "delete";
  secret = word "secret";
  send = word "send";
  automation = word "cron";
  execution_prefixes = λ text. if includes text "go ahead" then "" ∷ [] else [];
  negated_prefix = λ prefix. false;
  korean_execution = λ text. false;
  korean_negated = λ text. false;
}

go_ahead :
    (build_decision patterns "go ahead" "prior_flow_follow_up" "release-file" []).required_approvals
    ≡ release_gate ∷ []
unfolding build_decision includes
go_ahead = refl

build_decision-Locked_example :
    Locked (build_decision patterns "send it" "current_request" "general-runtime" [])
    × ((gate : String)
        → has
            (build_decision patterns "send it" "current_request" "general-runtime"
              []).required_approvals
            gate
          ≡ needs_gate patterns "send it" "current_request" "general-runtime" [] gate)
build_decision-Locked_example =
    build_decision-Locked patterns "send it" "current_request" "general-runtime" []
