-- ===== src/Turn.antt =====
-- src/core/turn-kernel.js, with src/core/session-overlay.js and src/core/context-runtime.js: one turn, from a
-- request's text to the packet of its task. The routing of skills is left out.
pub mod Contract
pub mod Carried
mod Tests
use gpao_t.Prelude.{
  ℕ, String, Bool, true, false, not, ◌&&◌, ◌||◌, Option, none, some, List, [], ◌∷◌, ◌++◌, map, ◌==◌,
  if◌then◌else◌, or_text, append, filter, truthy, Outcome, returned, threw, is_none,
}
use gpao_t.Cell.{Cell, empty_trace, empty_replay}
use gpao_t.Policy.{Signals, RequestPolicy, classify_request_target}
use gpao_t.Admission.{Overlay, Role, anchor, support, is_admitted, Scored, Packet, build_packet}
use gpao_t.Authority.{Patterns, Decision, DecisionStatus, build_decision}
use gpao_t.Adapters.{
  ModelAdapter, ModelRoute, route_model, ToolPlan, build_tool_plan, adapter_preview, Selection,
  unknown, admitted, refused,
}
use gpao_t.Continuity.{Referent, has_referent_signal, mentions}
use gpao_t.Continuity.Handing.{Handoff, build_handoff, build_continuity_cells, is_carried}
use gpao_t.Continuity as Continuity
use gpao_t.Wiki.{Files}
use gpao_t.Wiki.Scoring.{Mesh, resolve_mesh}

-- What the turn reads of its surroundings: the clock, the engine, and the expressions of the authority.
pub record Env : Type 0 where
  pub now : String
  pub continuity : Continuity.Env
  pub patterns : Patterns

-- `classifyInputSignal`, its kind; the follow-up expression's result is one of the signals.
unfoldable pub classify_input : Signals → String → String
classify_input signals text =
    if signals.follow_up
    then "follow_up"
    else if mentions text ("파일" ∷ "문서" ∷ "package" ∷ "release" ∷ "배포" ∷ [])
    then "artifact_request"
    else if mentions text ("삭제" ∷ "토큰" ∷ "secret" ∷ "oauth" ∷ "전송" ∷ "자동" ∷ [])
    then "authority_request"
    else "general_request"

-- The prior flow: an empty key is an absent one, a target is none where it is missing or empty, and the
-- referents are those of its ledger.
pub record PriorFlow : Type 0 where
  pub flow_key : String
  pub active_target_id : Option String
  pub new_session : Bool
  pub referents : List Referent

abbrev pub no_flow : PriorFlow
no_flow = record { flow_key = ""; active_target_id = none; new_session = false; referents = [] }

abbrev pub flow_or : Option PriorFlow → PriorFlow
flow_or none = no_flow
flow_or (some flow) = flow

pub record SessionOverlay : Type 0 where
  pub flow_key : String
  pub policy : RequestPolicy
  pub continuity_state : String
  pub handoff : Handoff

-- `buildSessionOverlay`; its target, request type and source are those of the policy, and its active referent
-- is the handoff's.
unfoldable pub build_overlay :
    Continuity.Env → Signals → (text kind : String) → Option PriorFlow → SessionOverlay
build_overlay env signals text kind prior =
    let flow = flow_or prior in
    let follow_up = kind == "follow_up" || signals.follow_up || has_referent_signal text in
    let policy = classify_request_target signals kind flow.active_target_id in
    let handoff = build_handoff env text kind flow.new_session flow.referents in
    record {
      flow_key = or_text flow.flow_key "local-dev-flow";
      policy = policy;
      continuity_state =
          if is_carried handoff.decision
          then "handoff_recovered"
          else if follow_up && policy.carry_prior_target
          then "recovered"
          else "fresh";
      handoff = handoff;
    }

-- `buildCoreTCell`
abbrev pub core_cell :
    (id pi : String)
    → (x : List String) → (anchor : String) → (valid_for : List String) → (source_ref : String)
    → (confidence risk : ℕ) → Cell
core_cell id pi x target valid_for source_ref confidence risk = record {
  id = id;
  pi = pi;
  x = x;
  anchor = target;
  radius = record {
    scope = "project";
    valid_for = valid_for;
    invalid_for = "unrelated_topic" ∷ [];
  };
  source_refs = source_ref ∷ [];
  contradicts = [];
  weights = some (record {
    relevance = 820;
    confidence = confidence;
    freshness = 920;
    risk = risk;
    cost = 100;
  });
  lifecycle = "reviewed";
  authority = record {
    allowed_use = "retrieve" ∷ "admit" ∷ "explain" ∷ "draft" ∷ [];
    blocked_use = "external_action" ∷ "durable_mutation" ∷ [];
  };
  replay = empty_replay;
  trace = record empty_trace { created_from = source_ref };
  admission_role = "";
  downgrade_reason = "";
  answer_anchor_eligible = none;
  mesh_score = 0;
}

abbrev pub core_cells : List Cell
core_cells =
    core_cell "tcell.active-target.release-file"
      "When the user uses a short follow-up phrase, recover the active target before answering."
      ("그럼 배포파일은?" ∷ "그건 어디 있어?" ∷ "아까 말한 거" ∷ []) "release-file"
      ("follow_up" ∷ "artifact_request" ∷ []) "GPAO-T-RUNTIME-SKELETON-CONTRACT-v0.1-ko.md#18.1" 840
      200
    ∷ core_cell "tcell.authority.local-preview-first"
        "Distribution, deletion, secret, account, external send, automation, and public release actions are previewed before approval."
        ("배포" ∷ "삭제" ∷ "토큰" ∷ "외부 전송" ∷ "자동화" ∷ []) "authority-boundary"
        ("authority_request" ∷ "artifact_request" ∷ "follow_up" ∷ [])
        "GPAO-T-RUNTIME-SKELETON-CONTRACT-v0.1-ko.md#4" 900 620
    ∷ []

-- `buildContextRuntime`: the cells that are retrieved, and the files, which the mesh may create.
unfoldable pub build_context :
    (now : String)
    → Continuity.Env
    → Signals
    → (text kind : String) → SessionOverlay
    → Files
    → List Cell × Files
build_context now env signals text kind overlay files =
    let target : String = or_text overlay.policy.active_target_id "unknown" in
    let (mesh, after) = resolve_mesh now signals text kind target none files in
    (build_continuity_cells env overlay.handoff ++ (core_cells ++ mesh.retrieved), after)

abbrev pub referent_entity : Option Referent → String
referent_entity none = ""
referent_entity (some r) = r.entity

-- What the admission reads of the overlay.
abbrev pub admission_overlay : SessionOverlay → Overlay
admission_overlay o = record {
  active_target_id = o.policy.active_target_id;
  active_referent = referent_entity o.handoff.active_referent;
}

abbrev pub is_task_role : Role → Bool
is_task_role anchor = true
is_task_role support = true
is_task_role _ = false

pub record TaskCell : Type 0 where
  pub id : String
  pub role : Role

abbrev pub tool_id : Selection → String
tool_id (unknown id) = id
tool_id (admitted a) = a.id
tool_id (refused a reason) = a.id

abbrev pub model_id : Option ModelAdapter → Option String
model_id none = none
model_id (some a) = some a.id

pub record TaskPacket : Type 0 where
  pub id : String
  pub objective : String
  pub active_target_id : String
  pub admitted_cells : List TaskCell
  pub authority_status : DecisionStatus
  pub required_approvals : List String
  pub model_route : String
  pub tool_preview : Bool
  pub adapter_preview : Bool
  pub selected_model : Option String
  pub admitted_tools : List String

-- `inferObjective`
unfoldable pub infer_objective : (text : String) → SessionOverlay → String
infer_objective text o =
    if truthy (referent_entity o.handoff.active_referent) && is_carried o.handoff.decision
    then append "Continue from recent referent: " (referent_entity o.handoff.active_referent)
    else if o.policy.active_target_id == "release-file"
    then "Recover the release-file active target and answer or draft only within local authority."
    else append "Handle user request: " text

-- `buildTaskPacket`
unfoldable pub build_task_packet :
    (text kind : String) → SessionOverlay → Packet → Decision → ModelRoute → ToolPlan → TaskPacket
build_task_packet text kind o p d route plan = record {
  id = append "task." (append o.flow_key (append "." kind));
  objective = infer_objective text o;
  active_target_id = o.policy.active_target_id;
  admitted_cells =
      map (λ s. record { id = s.cell.id; role = s.role })
        (filter (λ s. s.admitted && is_task_role s.role) p.admitted_cells);
  authority_status = d.status;
  required_approvals = d.required_approvals;
  model_route = route.route;
  tool_preview = plan.preview;
  adapter_preview = adapter_preview route;
  selected_model = model_id route.selection.selected;
  admitted_tools = map tool_id plan.selection.admitted_tools;
}

pub record Turn : Type 0 where
  pub kind : String
  pub overlay : SessionOverlay
  pub cells : List Cell
  pub packet : Packet
  pub decision : Decision
  pub route : ModelRoute
  pub plan : ToolPlan
  pub task : TaskPacket

-- The body of `runTurn` for a text that is there, with the retrieved cells at hand.
unfoldable pub turn_with : Env → (text kind : String) → SessionOverlay → List Cell → Turn
turn_with env text kind overlay cells =
    let packet = build_packet cells kind (admission_overlay overlay) in
    let decision =
      build_decision env.patterns text overlay.policy.target_source overlay.policy.active_target_id
        packet.admitted_cells in
    let route = route_model kind decision in
    let plan = build_tool_plan kind decision in
    record {
      kind = kind;
      overlay = overlay;
      cells = cells;
      packet = packet;
      decision = decision;
      route = route;
      plan = plan;
      task = build_task_packet text kind overlay packet decision route plan;
    }

-- `runTurn`
unfoldable pub run_turn :
    Env → Signals → (text : String) → Option PriorFlow → Files → Outcome Turn × Files
unfolding turn_with build_context build_overlay classify_input
run_turn env signals text prior files =
    if not (truthy text)
    then (threw "runTurn requires input.text", files)
    else (let kind = classify_input signals text in
        let overlay = build_overlay env.continuity signals text kind prior in
        let (cells, after) = build_context env.now env.continuity signals text kind overlay files in
        (returned (turn_with env text kind overlay cells), after))
