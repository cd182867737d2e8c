-- ===== src/Adapters/Tests.antt =====
-- Routes and tools of a turn that needs an approval for a secret.
use gpao_t.Prelude.{String, ◌≡◌, refl, [], ◌∷◌, map}
use gpao_t.Authority.{Decision, secret_gate, decision_for}
use gpao_t.Adapters.{route_model, select_tool_adapters, Selection, unknown, admitted, refused}

abbrev decision : Decision
decision = decision_for (secret_gate ∷ [])

abbrev selection_text : Selection → String
selection_text (unknown id) = id
selection_text (admitted a) = a.id
selection_text (refused a reason) = reason

chain_ids :
    map (λ a. a.id) (route_model "follow_up" decision).selection.fallback_chain
    ≡ "local.fast.stub" ∷ "local.reasoning.stub" ∷ []
unfolding route_model
chain_ids = refl

blocked_tools :
    map selection_text
      (select_tool_adapters decision ("external_send" ∷ "local_draft" ∷ "none" ∷ [])).blocked_tools
    ≡ "requires_explicit_approval" ∷ "none" ∷ []
unfolding select_tool_adapters
blocked_tools = refl
