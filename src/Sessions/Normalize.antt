-- ===== src/Sessions/Normalize.antt =====
-- src/core/session-workspace.js: `sessionRecord`, `normalizeSessionWorkspaceState` and
-- `ensureOneActiveSession`.
pub mod Invariant
pub mod Track
use Prim.Native.String.{len, slice}
use text.Mathlib.Text.{starts_with}
use gpao_t.Prelude.{
  String, Bool, true, false, not, ◌&&◌, ◌||◌, Option, none, some, List, [], ◌∷◌, ◌++◌, map, ◌==◌,
  if◌then◌else◌, or_text, or_option, non_empty, is_text, append, any, find, head?, unique, spread,
}
use gpao_t.Sessions.State.{
  SessionState, active, draft, waiting_approval, blocked, archived, delete_pending, unlabelled,
  Lifecycle, ContextPacket, MemoryScope, ReplayState, AuthorityGate, ActivitySummary, Session,
  Workspace, Env,
}
use gpao_t.Sessions.Fields.{
  state_label, known_state, is_closed, is_active, is_delete_pending, state_name,
  state_to_lifecycle_status, id_to_thread_id, lifecycle_record, or_refs, normalize_context_packet,
  normalize_memory_scope, normalize_replay_state, normalize_authority_gate,
  normalize_activity_summary,
}

unfoldable pub session_record : Env → Session → Session
unfolding state_label known_state lifecycle_record normalize_context_packet normalize_memory_scope
    normalize_replay_state normalize_authority_gate normalize_activity_summary id_to_thread_id
session_record env s =
    let thread_id : String = or_text s.thread_id (id_to_thread_id s.id) in
    let session_id : String = or_text s.session_id s.id in
    let state : SessionState = known_state s.state in
    let last_activity : String =
      or_text s.last_activity (or_text s.updated_at (or_text s.created_at env.clock)) in
    record {
      id = s.id;
      thread_id = thread_id;
      session_id = session_id;
      workspace_id = or_text s.workspace_id "workspace.gpao-t.local";
      title = or_text s.title "새 작업";
      title_mode = or_text s.title_mode "manual";
      state = state;
      state_label = state_label state;
      pinned = s.pinned;
      group_id = or_text s.group_id "group.ungrouped";
      lifecycle = some (lifecycle_record state s.lifecycle);
      last_activity = last_activity;
      last_opened_at = or_text s.last_opened_at last_activity;
      last_user_activity_at = or_text s.last_user_activity_at last_activity;
      last_agent_activity_at = or_text s.last_agent_activity_at last_activity;
      project = or_text s.project "GPAO-T";
      hint = or_text s.hint "로컬 작업";
      request = s.request;
      active_target_id = or_text s.active_target_id "general-runtime";
      context_packet =
          normalize_context_packet s.context_packet session_id thread_id s.request
            s.active_target_id;
      memory_scope = normalize_memory_scope s.memory_scope thread_id;
      replay_state = normalize_replay_state s.replay_state;
      authority_gate = normalize_authority_gate s.authority_gate;
      activity_summary = normalize_activity_summary s.activity_summary state last_activity;
      created_at = or_text s.created_at (or_text s.last_activity env.clock);
      updated_at = or_text s.updated_at (or_text s.last_activity env.clock);
    }

abbrev pub has_id : String → Session → Bool
has_id id s = s.id == id

abbrev pub id_of : Option Session → Option String
id_of none = none
id_of (some s) = some s.id

abbrev pub find_active : List Session → Option Session
find_active sessions = find (λ s. is_active s.state) sessions

-- The session that the loop of `ensureOneActiveSession` makes active.
abbrev pub is_chosen : Option String → Session → Bool
is_chosen preferred s = is_text preferred s.id && not (is_closed s.state)

unfoldable pub activate : String → Session → Session
unfolding state_label
activate now s = record s {
  state = active;
  state_label = state_label active;
  updated_at = or_text s.updated_at now;
}

unfoldable pub relabel : Session → Session
unfolding state_label
relabel s =
    let state : SessionState = if is_active s.state then draft else s.state in
    record s { state = state; state_label = state_label state }

unfoldable pub ensure_loop : String → Option String → Bool → List Session → List Session
unfolding activate relabel
ensure_loop now preferred assigned [] = []
ensure_loop now preferred assigned (s ∷ sessions) =
    let chosen = not assigned && is_chosen preferred s in
    (if chosen then activate now s else relabel s)
    ∷ ensure_loop now preferred (assigned || chosen) sessions

unfoldable pub ensure_one_active : List Session → Option String → String → List Session
unfolding ensure_loop
ensure_one_active sessions active_session_id now =
    let preferred = or_option (non_empty active_session_id) (id_of (find_active sessions)) in
    ensure_loop now preferred false sessions

abbrev pub mutating_actions : List String
mutating_actions =
    "new_session" ∷ "select_session" ∷ "rename" ∷ "toggle_pin" ∷ "archive" ∷ "restore"
    ∷ "mark_delete_pending" ∷ "cancel_delete_pending" ∷ []

abbrev pub default_boundaries : List (String × String)
default_boundaries =
    ("permanentDelete", "blocked")
    ∷ ("modelCall", "blocked")
    ∷ ("toolExecution", "blocked")
    ∷ ("connectorActivation", "blocked")
    ∷ ("externalActivation", "blocked")
    ∷ ("durableMemoryPromotion", "blocked")
    ∷ ("compatibilityMemoryWrite", "blocked")
    ∷ ("automaticAdmission", "blocked")
    ∷ []

-- The session that a state names as active, if it is there; else the first active one's id, else
-- the first one's.
unfoldable pub resolve_active_id : List Session → Option String → Option String
resolve_active_id sessions given =
    if any (λ s. is_text given s.id) sessions
    then given
    else or_option (non_empty (id_of (find_active sessions))) (non_empty (id_of (head? sessions)))

unfoldable pub normalize_workspace : Env → Workspace → Workspace
unfolding session_record ensure_one_active resolve_active_id
normalize_workspace env ws =
    let records = map (session_record env) ws.sessions in
    let active_id = resolve_active_id records ws.active_session_id in
    let sessions = ensure_one_active records active_id env.now in
    record {
      status = or_text ws.status "ready";
      active_session_id = or_option (non_empty (id_of (find_active sessions))) active_id;
      workspace = record {
        id = or_text ws.workspace.id "workspace.gpao-t.local";
        title = or_text ws.workspace.title "nBeAI. GPAO-T";
        authority_policy_id =
            or_text ws.workspace.authority_policy_id "gpao-t.local.preview-authority";
        memory_policy_id = or_text ws.workspace.memory_policy_id "gpao-t.review-only-memory";
      };
      created_at = or_text ws.created_at env.now;
      updated_at = or_text ws.updated_at env.now;
      allowed_actions = unique (ws.allowed_actions ++ mutating_actions);
      boundaries = spread default_boundaries ws.boundaries;
      sessions = sessions;
    }
