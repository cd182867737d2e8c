-- ===== src/Sessions/State.antt =====
-- src/core/session-workspace.js: the stored data. A record stands for the object that JSON.parse
-- returns: an absent text field is the empty text, and what the code tests by Array.isArray or
-- spreads is an Option.
use gpao_t.Prelude.{String, Bool, true, false, Option, none, List}

pub data SessionState : Type 0 where
  active draft waiting_approval blocked archived delete_pending : SessionState
  unlabelled : String → SessionState

pub record Lifecycle : Type 0 where
  pub status : String
  pub can_archive : Bool
  pub can_restore : Bool
  pub can_mark_delete_pending : Bool
  pub permanent_delete : String
  pub restore_required_before_select : Bool

pub record ContextPacket : Type 0 where
  pub id : String
  pub session_id : String
  pub thread_id : String
  pub scope : String
  pub active_target_id : String
  pub source_summary : String
  pub admitted_memory_refs : Option (List String)
  pub excluded_memory_refs : Option (List String)
  pub ephemeral_refs : Option (List String)
  pub global_memory_refs : Option (List String)
  pub workspace_memory_refs : Option (List String)
  pub authority_status : String
  pub freshness : String

pub record MemoryScope : Type 0 where
  pub global : String
  pub workspace : String
  pub group : String
  pub thread : String
  pub ephemeral : String
  pub durable_promotion : String
  pub compatibility_memory_write : String
  pub automatic_admission : String

pub record ReplayState : Type 0 where
  pub status : String
  pub required_before_admission : Bool
  pub before_after_evidence : String
  pub last_replay_id : Option String

pub record AuthorityGate : Type 0 where
  pub status : String
  pub local_session_state_write : String
  pub rename : String
  pub archive : String
  pub restore : String
  pub delete_pending : String
  pub permanent_delete : String
  pub durable_memory_promotion : String
  pub compatibility_memory_write : String
  pub external_send : String
  pub connector_activation : String
  pub model_provider_call : String

pub record ActivitySummary : Type 0 where
  pub status : String
  pub last_event_at : String
  pub visible_events : Option (List String)
  pub raw_event_ref : String

pub record Session : Type 0 where
  pub id : String
  pub thread_id : String
  pub session_id : String
  pub workspace_id : String
  pub title : String
  pub title_mode : String
  pub state : SessionState
  pub state_label : String
  pub pinned : Bool
  pub group_id : String
  pub lifecycle : Option Lifecycle
  pub last_activity : String
  pub last_opened_at : String
  pub last_user_activity_at : String
  pub last_agent_activity_at : String
  pub project : String
  pub hint : String
  pub request : String
  pub active_target_id : String
  pub context_packet : ContextPacket
  pub memory_scope : MemoryScope
  pub replay_state : ReplayState
  pub authority_gate : AuthorityGate
  pub activity_summary : ActivitySummary
  pub created_at : String
  pub updated_at : String

pub record WorkspaceIdentity : Type 0 where
  pub id : String
  pub title : String
  pub authority_policy_id : String
  pub memory_policy_id : String

pub record Workspace : Type 0 where
  pub status : String
  pub active_session_id : Option String
  pub workspace : WorkspaceIdentity
  pub created_at : String
  pub updated_at : String
  pub allowed_actions : List String
  pub boundaries : List (String × String)
  pub sessions : List Session

-- An event of the audit log, as `appendAuditEvent` of src/core/storage.js writes it for a session
-- action.
pub record AuditEvent : Type 0 where
  pub id : String
  pub type : String
  pub created_at : String
  pub authority : String
  pub summary : String
  pub action : String
  pub session_id : String
  pub session_state : SessionState
  pub external_activation : String
  pub permanent_delete : String

-- The two files that an action touches: the workspace's, which may be absent, and the audit log.
pub record Store : Type 0 where
  pub file : Option Workspace
  pub audit : List AuditEvent

-- What a call takes from outside: its `now` argument, the wall clock's text where the code calls
-- `new Date()` itself, the decimal texts of `Date.parse(now) || Date.now()` and of
-- `Date.parse(now) || 0`, and the title that is derived from a request.
pub record Env : Type 0 where
  pub now : String
  pub clock : String
  pub session_stamp : String
  pub event_stamp : String
  pub derive_title : String → String

abbrev pub empty_packet : ContextPacket
empty_packet = record {
  id = "";
  session_id = "";
  thread_id = "";
  scope = "";
  active_target_id = "";
  source_summary = "";
  admitted_memory_refs = none;
  excluded_memory_refs = none;
  ephemeral_refs = none;
  global_memory_refs = none;
  workspace_memory_refs = none;
  authority_status = "";
  freshness = "";
}

abbrev pub empty_scope : MemoryScope
empty_scope = record {
  global = "";
  workspace = "";
  group = "";
  thread = "";
  ephemeral = "";
  durable_promotion = "";
  compatibility_memory_write = "";
  automatic_admission = "";
}

abbrev pub empty_gate : AuthorityGate
empty_gate = record {
  status = "";
  local_session_state_write = "";
  rename = "";
  archive = "";
  restore = "";
  delete_pending = "";
  permanent_delete = "";
  durable_memory_promotion = "";
  compatibility_memory_write = "";
  external_send = "";
  connector_activation = "";
  model_provider_call = "";
}

-- An object literal that names only some of a session's fields starts from this one.
abbrev pub empty_session : Session
empty_session = record {
  id = "";
  thread_id = "";
  session_id = "";
  workspace_id = "";
  title = "";
  title_mode = "";
  state = unlabelled "";
  state_label = "";
  pinned = false;
  group_id = "";
  lifecycle = none;
  last_activity = "";
  last_opened_at = "";
  last_user_activity_at = "";
  last_agent_activity_at = "";
  project = "";
  hint = "";
  request = "";
  active_target_id = "";
  context_packet = empty_packet;
  memory_scope = empty_scope;
  replay_state = record {
    status = "";
    required_before_admission = true;
    before_after_evidence = "";
    last_replay_id = none;
  };
  authority_gate = empty_gate;
  activity_summary = record {
    status = "";
    last_event_at = "";
    visible_events = none;
    raw_event_ref = "";
  };
  created_at = "";
  updated_at = "";
}
