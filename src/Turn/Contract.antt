-- ===== src/Turn/Contract.antt =====
-- What every turn keeps: it reads, drafts and previews on this machine only, and answers only from
-- cells whose authority allows it.
use gpao_t.Prelude.{
  is_empty, has_any, ◌||◌, String, true, false, not, ◌≡◌, ◌≢◌, ◌⊎◌, refl, Option, some, List, [],
  ◌∷◌, map, or_text, has, truthy, Outcome, returned, threw, All, All-filter, inl, inr, arith,
  eq_iff, ap, if-holds, Option-cases, ℕ, Bool, ◌&&◌, ◌||◌,
}
use gpao_t.Cell.{Cell}
use gpao_t.Policy.{
  Signals, classify_authority_use, normalize_uses, all_use_blocked, non_anchor_lifecycles,
}
use gpao_t.Admission.{Overlay, anchor, Scored, build_packet, score_cell, is_referent}
use gpao_t.Admission.Roles.{score_cell-anchor}
use gpao_t.Authority.{secret_gate, Decision, build_decision}
use gpao_t.Authority.Gates.{Locked, build_decision-Locked}
use gpao_t.Adapters.{
  ModelAdapter, build_tool_plan, Selection, unknown, admitted, refused, requested_tools,
}
use gpao_t.Adapters.Local.{
  IsLocal, routed, route_model-RoutedLocally, AdmittedTool, local_tool_ids,
  select_tool_adapters-AdmittedTool,
}
use gpao_t.Wiki.{Files, read_candidates, initialize_wiki}
use gpao_t.Wiki.Scoring.{resolve_mesh}
use gpao_t.Turn.{
  Env, PriorFlow, SessionOverlay, admission_overlay, build_task_packet, tool_id, model_id, Turn,
  turn_with, run_turn, build_context,
}

-- A cell from which a turn may answer: its state of life and its authority allow it, and it is the active
-- referent's or the active target's.
pub record IsAnswer (o : Overlay) (c : Cell) : Type 0 where
  pub lifecycle : has non_anchor_lifecycles (or_text c.lifecycle "unknown") ≡ false
  pub allowed_use :
      (is_empty (normalize_uses c.authority.allowed_use)
        || has_any
            (normalize_uses c.authority.allowed_use)
            ("answer_anchor" ∷ "admit" ∷ "admit_for_current_turn" ∷ []))
      ≡ true
  pub not_none : has (normalize_uses c.authority.allowed_use) "none" ≡ false
  pub not_blocked : has (normalize_uses c.authority.allowed_use) "blocked" ≡ false
  pub open_all : has (normalize_uses c.authority.blocked_use) "all_context_use" ≡ false
  pub open_context : has (normalize_uses c.authority.blocked_use) "context_use" ≡ false
  pub open_turn : has (normalize_uses c.authority.blocked_use) "admit_for_current_turn" ≡ false
  pub open_use : has (normalize_uses c.authority.blocked_use) "answer_anchor" ≡ false
  pub aimed : (is_referent o c ≡ true) ⊎ (c.anchor ≡ o.active_target_id)

all_true :
    (p q r s : Bool)
    → (p && q && not r && not s) ≡ true
    → (p ≡ true) × (q ≡ true) × (r ≡ false) × (s ≡ false)
all_true p q r s h = ground arith

all_false :
    (p q r s t : Bool)
    → (p || q || r || s || t) ≡ false
    → (p ≡ false) × (q ≡ false) × (r ≡ false) × (s ≡ false) × (t ≡ false)
all_false p q r s t h = ground arith

allowed-IsAnswer :
    (o : Overlay) (c : Cell)
    → (classify_authority_use c).answer_anchor_allowed ≡ true
    → (is_referent o c ≡ true) ⊎ (c.anchor ≡ o.active_target_id)
    → IsAnswer o c
unfolding classify_authority_use all_use_blocked
allowed-IsAnswer o c h aimed =
    let allowed = normalize_uses c.authority.allowed_use in
    let denied = normalize_uses c.authority.blocked_use in
    let (lifecycle, allowed_use, unblocked, open_use) =
      all_true _ _ (all_use_blocked allowed denied) (has denied "answer_anchor") h in
    let (none', blocked', all, context, turn) =
      all_false (has allowed "none") (has allowed "blocked") (has denied "all_context_use")
        (has denied "context_use") (has denied "admit_for_current_turn") unblocked in
    record {
      lifecycle = not_true _ lifecycle;
      allowed_use = allowed_use;
      not_none = none';
      not_blocked = blocked';
      open_all = all;
      open_context = context;
      open_turn = turn;
      open_use = open_use;
      aimed = aimed;
    }
  where
    not_true : (b : Bool) → not b ≡ true → b ≡ false
    not_true b h = ground arith

-- A scored cell that is an anchor is one to answer from.
abbrev pub Answering : Overlay → Scored → Type 0
Answering o s = s.role ≡ anchor → IsAnswer o s.cell

score_cell-Answering : (kind : String) (o : Overlay) (c : Cell) → Answering o (score_cell kind o c)
unfolding score_cell
score_cell-Answering kind o c h =
    let (allowed, aimed) = score_cell-anchor kind o c h in allowed-IsAnswer o c allowed aimed

build_packet-Answering :
    (cells : List Cell) (kind : String) (o : Overlay)
    → All (Answering o) (build_packet cells kind o).admitted_cells
unfolding build_packet
build_packet-Answering cells kind o =
    All-filter (Answering o) (λ s. s.admitted) (score_cell kind o) cells
      (λ c h. score_cell-Answering kind o c)

-- A turn that stays on this machine.
pub record IsLocalTurn (t : Turn) : Type 0 where
  pub locked : Locked t.decision
  pub told :
      (t.task.authority_status ≡ t.decision.status)
      × (t.task.required_approvals ≡ t.decision.required_approvals)
  pub model : (a : ModelAdapter) × (t.task.selected_model ≡ some a.id) × IsLocal a
  pub secret :
      has t.decision.required_approvals secret_gate ≡ true
      → All (λ b. b.provider ≡ "local") t.route.selection.considered
  pub tools : All (λ id. has local_tool_ids id ≡ true) t.task.admitted_tools
  pub answers : All (Answering (admission_overlay t.overlay)) t.packet.admitted_cells

tool_ids :
    (d : Decision) (tools : List Selection)
    → All (AdmittedTool d) tools
    → All (λ id. has local_tool_ids id ≡ true) (map tool_id tools)
tool_ids d [] h = tt
tool_ids d (unknown id ∷ tools) (h, hs) = absurd h
tool_ids d (admitted a ∷ tools) ((l, p, k), hs) = (k, tool_ids d tools hs)
tool_ids d (refused a reason ∷ tools) (h, hs) = absurd h

turn_with-IsLocalTurn :
    (env : Env) (text kind : String) (o : SessionOverlay) (cells : List Cell)
    → IsLocalTurn (turn_with env text kind o cells)
unfolding turn_with build_task_packet build_tool_plan
turn_with-IsLocalTurn env text kind o cells =
    let packet = build_packet cells kind (admission_overlay o) in
    let d =
      build_decision env.patterns text o.policy.target_source o.policy.active_target_id
        packet.admitted_cells in
    record {
      locked =
          (build_decision-Locked env.patterns text o.policy.target_source o.policy.active_target_id
            packet.admitted_cells).0;
      told = (refl, refl);
      model = elim (route_model-RoutedLocally kind d) [ routed a e l p ↦ (a, ap model_id e, l) ];
      secret = elim (route_model-RoutedLocally kind d) [ routed a e l p ↦ p ];
      tools = tool_ids d _ (select_tool_adapters-AdmittedTool d (requested_tools kind)).0;
      answers = build_packet-Answering cells kind (admission_overlay o);
    }

-- The two outcomes of a turn.
pub data Turned (now text : String) (files : Files) : Outcome Turn × Files → Type 0 where
  nothing_asked : (message : String) → text ≡ "" → Turned now text files (threw message, files)
  turned :
      (t : Turn) (after : Files)
      → text ≢ ""
      → IsLocalTurn t
      → (after ≡ files) ⊎ (after ≡ (initialize_wiki now files).1)
      → Turned now text files (returned t, after)

read_candidates-files :
    (now : String) (limit : ℕ) (files : Files)
    → ((read_candidates now limit files).1 ≡ files)
      ⊎ ((read_candidates now limit files).1 ≡ (initialize_wiki now files).1)
unfolding read_candidates
read_candidates-files now limit files = elim (Option-cases files.cells) [
  | inl e ↦ inr (rw e refl)
  | inr (cells, e) ↦ inl (rw e refl)
]

-- A turn without a text throws and changes nothing. Any other turn returns, creates the memory files at
-- most, allows no action outside this machine, says which approvals it needs, has an available local
-- model and local tools only, considers only local models where a secret or an account needs approval,
-- and answers only from cells that their state of life and their authority
-- allow, and that are the active referent's or the active target's.
pub run_turn-Turned :
    (env : Env) (signals : Signals) (text : String) (prior : Option PriorFlow) (files : Files)
    → Turned env.now text files (run_turn env signals text prior files)
unfolding run_turn build_context resolve_mesh
run_turn-Turned env signals text prior files =
    if-holds (Turned env.now text files) (not (truthy text)) _ _
      (λ e. nothing_asked _ (ground (arith, e, eq_iff text "")))
      (λ e.
        turned _ _ (ground (arith, e, eq_iff text "")) (turn_with-IsLocalTurn env text _ _ _)
          (read_candidates-files env.now 100 files))
