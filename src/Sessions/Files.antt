-- ===== src/Sessions/Files.antt =====
-- src/core/session-workspace.js: the names of the actions, and reading and writing the workspace
-- file and its audit trail.
use gpao_t.Prelude.{String, none, some, List, [], ◌∷◌, ◌++◌, map, append}
use gpao_t.Sessions.State.{
  SessionState, active, draft, waiting_approval, archived, delete_pending, Session, Workspace,
  Store, Env, empty_session,
}
use gpao_t.Sessions.Normalize.{
  session_record, mutating_actions, default_boundaries, normalize_workspace,
}

-- `unsupported` is every name outside `MUTATING_ACTIONS`.
pub data Action : Type 0 where
  new_session select_session rename toggle_pin archive : Action
  restore mark_delete_pending cancel_delete_pending : Action
  unsupported : String → Action

unfoldable pub user_message_for_action : Action → String
user_message_for_action new_session = "새 세션을 만들었습니다."
user_message_for_action select_session = "활성 세션을 전환했습니다."
user_message_for_action rename = "세션 이름을 바꿨습니다."
user_message_for_action toggle_pin = "세션 고정을 전환했습니다."
user_message_for_action archive = "세션을 보관했습니다."
user_message_for_action restore = "세션을 복구했습니다."
user_message_for_action mark_delete_pending = "세션을 삭제 대기로 옮겼습니다. 아직 영구 삭제는 아닙니다."
user_message_for_action cancel_delete_pending = "삭제 대기를 취소했습니다."
user_message_for_action (unsupported name) = "세션 작업을 적용했습니다."

abbrev pub action_name : Action → String
action_name new_session = "new_session"
action_name select_session = "select_session"
action_name rename = "rename"
action_name toggle_pin = "toggle_pin"
action_name archive = "archive"
action_name restore = "restore"
action_name mark_delete_pending = "mark_delete_pending"
action_name cancel_delete_pending = "cancel_delete_pending"
action_name (unsupported name) = name

-- The six sessions of a first start.
unfoldable pub default_session : Env → String → String → SessionState → String → String → Session
default_session env id title state hint request = record empty_session {
  id = id;
  title = title;
  state = state;
  last_activity = env.now;
  project = "GPAO-T";
  hint = hint;
  request = request;
}

unfoldable pub default_sessions : Env → List Session
unfolding default_session session_record
default_sessions env = map (session_record env) (
    default_session env "session.current" "지금 맡긴 작업" active "일반 작업 흐름"
      "GPAO-T 첫 작업 표면을 설계하고 다음 안전 행동을 정리해줘."
    ∷ default_session env "session.draft.control-center" "Control Center 정리" draft "보조 인스펙터"
        "Control Center는 보조 검토 표면으로 유지"
    ∷ default_session env "session.waiting.approval" "승인 기록 검토" waiting_approval "저장 전 확인"
        "승인/감사 로컬 기록 확인"
    ∷ default_session env "session.blocked.connector" "커넥터 실행" SessionState.blocked "외부 전송 없음"
        "커넥터 활성화는 승인 전 잠김"
    ∷ default_session env "session.archived.design" "디자인 기준 정리" archived "보관됨"
        "Visual Reference 기반 정리"
    ∷ default_session env "session.delete-pending.old-dashboard" "이전 대시보드 실험" delete_pending "복구 가능"
        "영구 삭제 전 대기"
    ∷ [])

unfoldable pub first_workspace : Env → Workspace
unfolding default_sessions
first_workspace env = record {
  status = "ready";
  active_session_id = some "session.current";
  workspace = record {
    id = "workspace.gpao-t.local";
    title = "nBeAI. GPAO-T";
    authority_policy_id = "gpao-t.local.preview-authority";
    memory_policy_id = "gpao-t.review-only-memory";
  };
  created_at = env.now;
  updated_at = env.now;
  allowed_actions = mutating_actions;
  boundaries = default_boundaries;
  sessions = default_sessions env;
}

unfoldable pub default_workspace : Env → Workspace
unfolding first_workspace normalize_workspace
default_workspace env = normalize_workspace env (first_workspace env)

unfoldable pub read_workspace : Env → Store → Workspace
read_workspace env store = elim store.file [
  | none ↦ default_workspace env
  | some ws ↦ normalize_workspace env ws
]

unfoldable pub write_workspace : Env → Workspace → Store → Workspace × Store
write_workspace env ws store =
    let written = normalize_workspace env (record ws { updated_at = env.now }) in
    (written, record store { file = some written })

-- `appendAuditEvent` with the event that `writeAndAudit` passes.
unfoldable pub append_audit_event : Env → Action → Session → Store → Store
unfolding user_message_for_action
append_audit_event env action session store = record store {
  audit =
      store.audit
      ++ record {
        id = append "evt." (append env.event_stamp ".session_workspace.action");
        type = "session_workspace.action";
        created_at = env.now;
        authority = "local_only";
        summary = user_message_for_action action;
        action = action_name action;
        session_id = session.id;
        session_state = session.state;
        external_activation = "blocked";
        permanent_delete = "blocked";
      }
        ∷ [];
}

unfoldable pub write_and_audit : Env → Workspace → Action → Session → Store → Workspace × Store
unfolding append_audit_event write_workspace
write_and_audit env ws action session store =
    let (written, store') = write_workspace env ws store in
    (written, append_audit_event env action session store')
