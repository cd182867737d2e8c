-- ===== src/Sessions/Actions.antt =====
-- src/core/session-workspace.js: `applySessionWorkspaceAction`.
pub mod Outcome
pub mod Track
pub mod Focus
use gpao_t.Prelude.{
  String, Bool, true, false, not, ◌&&◌, Option, none, some, List, [], ◌∷◌, ◌++◌, map, ◌==◌,
  if◌then◌else◌, or_text, or_null, non_empty, is_text, find, append, trim,
}
use gpao_t.Sessions.State.{
  SessionState, active, draft, waiting_approval, archived, delete_pending, Session, Workspace,
  Store, Env, empty_session,
}
use gpao_t.Sessions.Normalize.{
  has_id, id_of, session_record, ensure_one_active, mutating_actions, default_boundaries,
  normalize_workspace,
}
use gpao_t.Sessions.Fields.{is_closed, is_active, is_delete_pending}
use gpao_t.Sessions.Files.{
  Action, new_session, select_session, rename, toggle_pin, archive, restore, mark_delete_pending,
  cancel_delete_pending, unsupported, user_message_for_action, action_name, first_workspace,
  default_workspace, read_workspace, write_workspace, append_audit_event, write_and_audit,
}

pub record Request : Type 0 where
  pub action : Action
  pub session_id : String
  pub title : String
  pub request : String

pub data Status : Type 0 where
  applied blocked review : Status

pub record Result : Type 0 where
  pub status : Status
  pub reason : Option String
  pub action : Action
  pub session_id : Option String
  pub message : String
  pub state : Workspace
  pub boundaries : List (String × String)

unfoldable pub action_result : Status → String → String → Workspace → Action → String → Result
action_result status reason message state action session_id = record {
  status = status;
  reason = or_null reason;
  action = action;
  session_id = or_null session_id;
  message = message;
  state = state;
  boundaries = state.boundaries;
}

unfoldable pub build_new_session : Env → String → String → Session
unfolding session_record
build_new_session env title request =
    let manual_title : String = trim title in
    session_record env (record empty_session {
      id = append "session.local." env.session_stamp;
      title = or_text manual_title (env.derive_title request);
      title_mode = if manual_title == "" then "auto_from_first_input" else "manual";
      state = active;
      last_activity = env.now;
      project = "GPAO-T";
      hint = "새 로컬 세션";
      request = request;
      created_at = env.now;
      updated_at = env.now;
    })

-- `state.sessions.map((session) => session.id === id ? f(session) : session)`
unfoldable pub update_session : String → (Session → Session) → List Session → List Session
update_session id f sessions = map (λ s. if s.id == id then f s else s) sessions

unfoldable pub is_open : SessionState → Bool
is_open active = true
is_open draft = true
is_open waiting_approval = true
is_open SessionState.blocked = true
is_open _ = false

unfoldable pub next_active_session_id : List Session → String → Option String
unfolding is_open
next_active_session_id sessions excluded =
    non_empty (id_of (find (λ s. not (s.id == excluded) && is_open s.state) sessions))

abbrev pub park : Session → Session
park s = if is_active s.state then record s { state = draft } else s

unfoldable pub select_in : Env → String → Workspace → Workspace
select_in env id ws = record ws {
  sessions =
      map (λ s. if s.id == id then record s { state = active; updated_at = env.now } else park s)
        ws.sessions;
  active_session_id = some id;
}

-- Where the focus goes when the session `id` leaves the open ones.
unfoldable pub next_focus : Option String → List Session → String → Option String
unfolding next_active_session_id
next_focus active_id sessions id =
    if is_text active_id id then next_active_session_id sessions id else active_id

abbrev pub with_state : Env → SessionState → Session → Session
with_state env state s = record s { state = state; updated_at = env.now }

-- `archive` and `mark_delete_pending`: the state changes, and another open session takes the focus.
unfoldable pub close_in : Env → SessionState → String → Workspace → Workspace
unfolding update_session next_focus ensure_one_active
close_in env closed id ws =
    let sessions = update_session id (with_state env closed) ws.sessions in
    let active_id = next_focus ws.active_session_id sessions id in
    record ws {
      sessions = ensure_one_active sessions active_id env.now;
      active_session_id = active_id;
    }

-- `restore` and `cancel_delete_pending`: back to draft, from the states that the test admits.
unfoldable pub reopen_in : Env → (SessionState → Bool) → String → Workspace → Workspace
unfolding update_session
reopen_in env from id ws = record ws {
  sessions =
      update_session id
        (λ s. if from s.state then record s { state = draft; updated_at = env.now } else s)
        ws.sessions;
}

abbrev pub renamed : Env → String → Session → Session
renamed env title s = record s { title = trim title; title_mode = "manual"; updated_at = env.now }

abbrev pub pin_toggled : Env → Session → Session
pin_toggled env s = record s { pinned = not s.pinned; updated_at = env.now }

-- What an action on a session makes of the cloned state: a refusal, or the state to write.
pub data Edit : Type 0 where
  refuse : Status → (reason message : String) → Edit
  commit : Workspace → Edit

unfoldable pub edit_session : Env → Request → Session → Workspace → Action → Edit
unfolding select_in close_in reopen_in update_session
edit_session env req target ws new_session = commit ws
edit_session env req target ws select_session =
    if is_closed target.state
    then refuse review "restore_before_select" "보관 또는 삭제 대기 세션은 먼저 복구해야 활성화할 수 있습니다."
    else commit (select_in env target.id ws)
edit_session env req target ws rename =
    if trim req.title == ""
    then refuse blocked "title_required" "이름 변경에는 새 제목이 필요합니다."
    else commit
        (record ws { sessions = update_session target.id (renamed env req.title) ws.sessions })
edit_session env req target ws toggle_pin =
    commit (record ws { sessions = update_session target.id (pin_toggled env) ws.sessions })
edit_session env req target ws archive = commit (close_in env archived target.id ws)
edit_session env req target ws restore = commit (reopen_in env is_closed target.id ws)
edit_session env req target ws mark_delete_pending =
    commit (close_in env delete_pending target.id ws)
edit_session env req target ws cancel_delete_pending =
    commit (reopen_in env is_delete_pending target.id ws)
edit_session env req target ws (unsupported name) = commit ws

abbrev pub or_session : Option Session → Session → Session
or_session none s = s
or_session (some t) s = t

abbrev pub stamped : Env → Workspace → Workspace
stamped env ws = record ws { updated_at = env.now }

-- The target as it stands in the new state.
abbrev pub latest_target : Request → Session → Workspace → Session
latest_target req target ws = or_session (find (has_id req.session_id) ws.sessions) target

unfoldable pub finish_edit : Env → Request → Session → Workspace → Store → Edit → Result × Store
unfolding action_result write_and_audit user_message_for_action
finish_edit env req target before store (refuse status reason message) =
    (action_result status reason message before req.action req.session_id, store)
finish_edit env req target before store (commit ws) =
    let ws' = stamped env ws in
    let (written, store') =
      write_and_audit env ws' req.action (latest_target req target ws') store in
    (
      action_result applied "" (user_message_for_action req.action) written req.action
          req.session_id,
      store',
    )

unfoldable pub act_on_target : Env → Request → Workspace → Store → Option Session → Result × Store
unfolding action_result edit_session finish_edit
act_on_target env req before store none = (
  action_result blocked "session_not_found" "대상 세션을 찾지 못했습니다." before req.action req.session_id,
  store,
)
act_on_target env req before store (some target) =
    finish_edit env req target before store (edit_session env req target before req.action)

abbrev pub with_new : Env → Session → Workspace → Workspace
with_new env session before = record before {
  sessions = session ∷ map park before.sessions;
  active_session_id = some session.id;
  updated_at = env.now;
}

unfoldable pub create_session : Env → Request → Workspace → Store → Result × Store
unfolding build_new_session write_and_audit action_result
create_session env req before store =
    let session = build_new_session env req.title req.request in
    let (written, store') =
      write_and_audit env (with_new env session before) req.action session store in
    (action_result applied "" "새 세션을 만들고 활성 세션으로 전환했습니다." written req.action session.id, store')

unfoldable pub find_target : Request → Workspace → Option Session
find_target req ws = if req.session_id == "" then none else find (has_id req.session_id) ws.sessions

unfoldable pub dispatch : Env → Request → Workspace → Store → Action → Result × Store
unfolding action_result create_session act_on_target find_target
dispatch env req before store (unsupported name) = (
  action_result blocked "unsupported_or_destructive_action" "지원하지 않거나 되돌리기 어려운 세션 행동은 열지 않습니다."
      before req.action req.session_id,
  store,
)
dispatch env req before store new_session = create_session env req before store
dispatch env req before store _ = act_on_target env req before store (find_target req before)

unfoldable pub apply_action : Env → Request → Store → Result × Store
unfolding dispatch read_workspace
apply_action env req store = dispatch env req (read_workspace env store) store req.action
