-- ===== src/Sessions/Fields.antt =====
-- src/core/session-workspace.js: the parts of a session record: its state, its lifecycle, and the
-- `normalize…` helpers of the objects that it holds.
use Prim.Native.String.{len, slice}
use text.Mathlib.Text.{starts_with}
use gpao_t.Prelude.{
  String, Bool, true, false, not, ◌||◌, Option, none, some, List, [], ◌∷◌, ◌==◌, if◌then◌else◌,
  or_text, non_empty, append,
}
use gpao_t.Sessions.State.{
  SessionState, active, draft, waiting_approval, blocked, archived, delete_pending, unlabelled,
  Lifecycle, ContextPacket, MemoryScope, ReplayState, AuthorityGate, ActivitySummary,
}

-- `SESSION_STATE_LABELS[state]`; a text that is no key has no label.
unfoldable pub state_label : SessionState → String
state_label active = "진행 중"
state_label draft = "초안"
state_label waiting_approval = "확인 필요"
state_label blocked = "멈춤"
state_label archived = "보관됨"
state_label delete_pending = "삭제 대기"
state_label (unlabelled s) = ""

-- `SESSION_STATE_LABELS[session.state] ? session.state : "draft"`
unfoldable pub known_state : SessionState → SessionState
known_state (unlabelled s) = draft
known_state active = active
known_state draft = draft
known_state waiting_approval = waiting_approval
known_state blocked = blocked
known_state archived = archived
known_state delete_pending = delete_pending

-- `["archived", "delete_pending"].includes(state)`
abbrev pub is_closed : SessionState → Bool
is_closed archived = true
is_closed delete_pending = true
is_closed _ = false

abbrev pub is_active : SessionState → Bool
is_active active = true
is_active _ = false

abbrev pub is_delete_pending : SessionState → Bool
is_delete_pending delete_pending = true
is_delete_pending _ = false

abbrev pub state_name : SessionState → String
state_name active = "active"
state_name draft = "draft"
state_name waiting_approval = "waiting_approval"
state_name blocked = "blocked"
state_name archived = "archived"
state_name delete_pending = "delete_pending"
state_name (unlabelled s) = s

unfoldable pub state_to_lifecycle_status : SessionState → String
state_to_lifecycle_status active = "running"
state_to_lifecycle_status draft = "idle"
state_to_lifecycle_status waiting_approval = "waiting_for_user"
state_to_lifecycle_status blocked = "blocked"
state_to_lifecycle_status archived = "archived"
state_to_lifecycle_status delete_pending = "delete_pending"
state_to_lifecycle_status (unlabelled s) = "idle"

-- The prefix `session.` or `session:` becomes `thread.`; both are eight bytes long.
unfoldable pub id_to_thread_id : String → String
id_to_thread_id id =
    if id == ""
    then "thread.local.unknown"
    else if starts_with id "session." || starts_with id "session:"
    then append "thread." (slice id 8 (len id))
    else id

-- A stored lifecycle object covers every computed field.
unfoldable pub lifecycle_record : SessionState → Option Lifecycle → Lifecycle
unfolding state_to_lifecycle_status
lifecycle_record state none = record {
  status = state_to_lifecycle_status state;
  can_archive = not (is_closed state);
  can_restore = is_closed state;
  can_mark_delete_pending = not (is_delete_pending state);
  permanent_delete = "blocked";
  restore_required_before_select = is_closed state;
}
lifecycle_record state (some stored) = stored

abbrev pub or_refs : Option (List String) → List String → Option (List String)
or_refs none d = some d
or_refs (some refs) d = some refs

unfoldable pub normalize_context_packet :
    ContextPacket → String → String → String → String → ContextPacket
normalize_context_packet packet session_id thread_id request active_target_id = record {
  id = or_text packet.id (append "context." session_id);
  session_id = session_id;
  thread_id = thread_id;
  scope = or_text packet.scope "thread";
  active_target_id = or_text packet.active_target_id (or_text active_target_id "general-runtime");
  source_summary = or_text packet.source_summary (or_text request "세션 내부 맥락");
  admitted_memory_refs = or_refs packet.admitted_memory_refs [];
  excluded_memory_refs = or_refs packet.excluded_memory_refs [];
  ephemeral_refs = or_refs packet.ephemeral_refs (append "session:" session_id ∷ []);
  global_memory_refs = or_refs packet.global_memory_refs [];
  workspace_memory_refs = or_refs packet.workspace_memory_refs [];
  authority_status = or_text packet.authority_status "admission_required_before_answer_anchor";
  freshness = or_text packet.freshness "current_session";
}

unfoldable pub normalize_memory_scope : MemoryScope → String → MemoryScope
normalize_memory_scope scope thread_id = record {
  global = or_text scope.global "candidate_only";
  workspace = or_text scope.workspace "candidate_only";
  group = or_text scope.group "candidate_only";
  thread = or_text scope.thread thread_id;
  ephemeral = or_text scope.ephemeral "turn_context_only";
  durable_promotion = "blocked";
  compatibility_memory_write = "blocked";
  automatic_admission = "blocked";
}

unfoldable pub normalize_replay_state : ReplayState → ReplayState
normalize_replay_state replay = record {
  status = or_text replay.status "not_run";
  required_before_admission = replay.required_before_admission;
  before_after_evidence = or_text replay.before_after_evidence "required_before_memory_anchor";
  last_replay_id = non_empty replay.last_replay_id;
}

unfoldable pub normalize_authority_gate : AuthorityGate → AuthorityGate
normalize_authority_gate gate = record {
  status = or_text gate.status "locked";
  local_session_state_write = "allowed";
  rename = "allowed";
  archive = "allowed";
  restore = "allowed";
  delete_pending = "allowed";
  permanent_delete = "blocked";
  durable_memory_promotion = "blocked";
  compatibility_memory_write = "blocked";
  external_send = "blocked";
  connector_activation = "blocked";
  model_provider_call = "blocked";
}

unfoldable pub normalize_activity_summary :
    ActivitySummary → SessionState → String → ActivitySummary
normalize_activity_summary summary state last_activity = record {
  status = or_text summary.status "local_summary_ready";
  last_event_at = or_text summary.last_event_at last_activity;
  visible_events = or_refs summary.visible_events (append "session_state:" (state_name state) ∷ []);
  raw_event_ref = or_text summary.raw_event_ref ".gpao-t/events/audit.jsonl";
}
