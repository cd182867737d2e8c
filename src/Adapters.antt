-- ===== src/Adapters.antt =====
-- src/core/adapter-boundary.js, with `routeModel` of src/core/model-router.js and `buildToolPlan` of
-- src/core/tool-runtime.js: which adapters a turn may use.
pub mod Local
mod Tests
use gpao_t.Prelude.{
  ℕ, String, Bool, true, false, not, ◌&&◌, ◌||◌, Option, none, some, List, [], ◌∷◌, map, ◌==◌,
  if◌then◌else◌, filter, find, any, has, leb, or_option, is_empty, is_none,
}
use gpao_t.Authority.{Decision, DecisionStatus, allowed, needs_approval, secret_gate}

pub record ModelAdapter : Type 0 where
  pub id : String
  pub provider : String
  pub classes : List String
  pub privacy : String
  pub status : String
  pub execution_mode : String
  pub authority : String
  pub latency_tier : String
  pub cost_tier : String
  pub fallback_rank : ℕ

-- `MODEL_ADAPTERS`
abbrev pub model_adapters : List ModelAdapter
model_adapters =
    record {
      id = "local.fast.stub";
      provider = "local";
      classes = "fast_low_latency" ∷ "local_small_model" ∷ [];
      privacy = "local_or_private";
      status = "available";
      execution_mode = "local_preview";
      authority = "local_only";
      latency_tier = "low";
      cost_tier = "zero_or_local";
      fallback_rank = 1;
    }
    ∷ record {
      id = "local.reasoning.stub";
      provider = "local";
      classes = "strong_reasoning" ∷ "local_small_model" ∷ [];
      privacy = "local_or_private";
      status = "available";
      execution_mode = "local_preview";
      authority = "local_only";
      latency_tier = "medium";
      cost_tier = "zero_or_local";
      fallback_rank = 2;
    }
    ∷ record {
      id = "external.fast.api.preview";
      provider = "external_api";
      classes = "fast_low_latency" ∷ [];
      privacy = "standard";
      status = "blocked_until_configured";
      execution_mode = "plan_only";
      authority = "external_model_call_requires_setup";
      latency_tier = "low";
      cost_tier = "metered";
      fallback_rank = 3;
    }
    ∷ record {
      id = "external.reasoning.api.preview";
      provider = "external_api";
      classes = "strong_reasoning" ∷ [];
      privacy = "standard";
      status = "blocked_until_configured";
      execution_mode = "plan_only";
      authority = "external_model_call_requires_setup";
      latency_tier = "medium_to_high";
      cost_tier = "metered";
      fallback_rank = 4;
    }
    ∷ []

pub record ToolAdapter : Type 0 where
  pub id : String
  pub kind : String
  pub status : String
  pub execution_mode : String
  pub authority : String

abbrev local_tool : String → String → ToolAdapter
local_tool id kind = record {
  id = id;
  kind = kind;
  status = "available";
  execution_mode = "local_preview";
  authority = "local_only";
}

-- `TOOL_ADAPTERS`
abbrev pub tool_adapters : List ToolAdapter
tool_adapters =
    local_tool "local_file_read" "local_read"
    ∷ local_tool "local_replay" "local_replay"
    ∷ local_tool "local_draft" "local_draft"
    ∷ record {
      id = "external_send";
      kind = "external_action";
      status = "blocked";
      execution_mode = "requires_approval";
      authority = "external_send";
    }
    ∷ record {
      id = "public_release";
      kind = "distribution";
      status = "blocked";
      execution_mode = "requires_approval";
      authority = "public_release_or_distribution";
    }
    ∷ []

abbrev pub is_available : ModelAdapter → Bool
is_available a = a.status == "available"

abbrev pub private : String
private = "local_or_private"

-- `adapter.provider === "local"` where the privacy asks for it.
abbrev pub is_private_enough : (privacy : String) → ModelAdapter → Bool
is_private_enough privacy a = if privacy == private then a.provider == "local" else true

-- `sort((left, right) => left.fallbackRank - right.fallbackRank)`
abbrev pub insert_ranked : ModelAdapter → List ModelAdapter → List ModelAdapter
insert_ranked a [] = a ∷ []
insert_ranked a (b ∷ bs) =
    let rest = insert_ranked a bs in
    if leb a.fallback_rank b.fallback_rank then a ∷ b ∷ bs else b ∷ rest

abbrev pub sort_ranked : List ModelAdapter → List ModelAdapter
sort_ranked [] = []
sort_ranked (a ∷ adapters) = insert_ranked a (sort_ranked adapters)

pub record BlockedModel : Type 0 where
  pub id : String
  pub reason : String

pub record ModelSelection : Type 0 where
  pub preferred_class : String
  pub fallback_class : String
  pub privacy : String
  pub selected : Option ModelAdapter
  pub considered : List ModelAdapter
  pub blocked : List BlockedModel
  pub fallback_chain : List ModelAdapter

abbrev pub blocked_model : ModelAdapter → BlockedModel
blocked_model a = record {
  id = a.id;
  reason = if is_available a then "privacy boundary requires local/private model" else a.status;
}

-- `selectModelAdapter`
unfoldable pub select_model_adapter :
    (preferred_class fallback_class privacy : String) → ModelSelection
select_model_adapter preferred_class fallback_class privacy =
    let candidates = filter (λ a. has a.classes preferred_class) model_adapters in
    let safe = filter (is_private_enough privacy) candidates in
    record {
      preferred_class = preferred_class;
      fallback_class = fallback_class;
      privacy = privacy;
      selected =
          or_option (find is_available safe)
            (find (λ a. has a.classes fallback_class && is_available a) model_adapters);
      considered = safe;
      blocked = map blocked_model (
          filter (λ a. not (is_available a) || (privacy == private && not (a.provider == "local")))
            candidates);
      fallback_chain = sort_ranked (filter (λ a. has a.classes fallback_class) model_adapters);
    }

-- A requested tool: one that no adapter has, or an adapter with its new status.
pub data Selection : Type 0 where
  unknown : (id : String) → Selection
  admitted : ToolAdapter → Selection
  refused : (adapter : ToolAdapter) → (reason : String) → Selection

abbrev pub is_admitted_tool : Selection → Bool
is_admitted_tool (admitted a) = true
is_admitted_tool _ = false

abbrev pub choose_tool :
    (id : String) → (preview : Bool) → (required : List String) → Option ToolAdapter → Selection
choose_tool id preview required none = unknown id
choose_tool id preview required (some a) =
    if a.authority == "local_only" && preview
    then admitted a
    else if has required a.authority || a.status == "blocked"
    then refused a "requires_explicit_approval"
    else refused a "not_admitted_for_current_turn"

pub record ToolSelection : Type 0 where
  pub preview : Bool
  pub admitted_tools : List Selection
  pub blocked_tools : List Selection

-- The body of the `map` in `selectToolAdapters`.
unfoldable pub select_tool : Decision → String → Selection
select_tool d id =
    choose_tool id (has d.allowed_actions "local_preview") d.required_approvals
      (find (λ a. a.id == id) tool_adapters)

-- `requestedTools.length ? requestedTools : ["local_replay", "local_draft"]`
abbrev pub tools_of : List String → List String
tools_of requested = if is_empty requested then "local_replay" ∷ "local_draft" ∷ [] else requested

-- `selectToolAdapters`
unfoldable pub select_tool_adapters : Decision → (requested : List String) → ToolSelection
unfolding select_tool
select_tool_adapters d requested =
    let selections = map (select_tool d) (tools_of requested) in
    record {
      preview = any is_admitted_tool selections;
      admitted_tools = filter is_admitted_tool selections;
      blocked_tools = filter (λ s. not (is_admitted_tool s)) selections;
    }

pub record ModelRoute : Type 0 where
  pub route : String
  pub privacy : String
  pub preferred_class : String
  pub selection : ModelSelection
  pub latency_budget : String

-- `routeModel`
unfoldable pub route_model : (kind : String) → Decision → ModelRoute
unfolding select_model_adapter
route_model kind d =
    let fast = kind == "follow_up" in
    let privacy : String = if has d.required_approvals secret_gate then private else "standard" in
    let preferred : String = if fast then "fast_low_latency" else "strong_reasoning" in
    record {
      route = if fast then "fast_context_recovery" else "balanced_reasoning";
      privacy = privacy;
      preferred_class = preferred;
      selection = select_model_adapter preferred "local_small_model" privacy;
      latency_budget = if fast then "low" else "medium";
    }

pub record ToolPlan : Type 0 where
  pub preview : Bool
  pub selection : ToolSelection
  pub blocked_tools : List String

abbrev pub is_allowed : DecisionStatus → Bool
is_allowed allowed = true
is_allowed needs_approval = false

-- The `requestedTools` of `buildToolPlan`.
abbrev pub requested_tools : (kind : String) → List String
requested_tools kind =
    if kind == "artifact_request" || kind == "follow_up"
    then "local_replay" ∷ "local_draft" ∷ []
    else "local_draft" ∷ []

-- `buildToolPlan`
unfoldable pub build_tool_plan : (kind : String) → Decision → ToolPlan
unfolding select_tool_adapters
build_tool_plan kind d = record {
  preview = is_allowed d.status || has d.allowed_actions "local_preview";
  selection = select_tool_adapters d (requested_tools kind);
  blocked_tools = d.blocked_actions;
}

-- The status of `buildAdapterPlan`: "preview" where a model is selected.
unfoldable pub adapter_preview : ModelRoute → Bool
adapter_preview r = not (is_none r.selection.selected)
