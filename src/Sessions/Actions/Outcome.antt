-- ===== src/Sessions/Actions/Outcome.antt =====
-- What an action leaves: a well-formed workspace, and either nothing written or one write with one
-- audit event.
use gpao_t.Prelude.{[], ◌∷◌, ◌++◌, String, ◌≡◌, ◌≢◌, refl, Option, none, some, arith}
use gpao_t.Sessions.State.{AuditEvent, Session, Workspace, Store, Env}
use gpao_t.Sessions.Normalize.{normalize_workspace}
use gpao_t.Sessions.Normalize.Invariant.{IsWellFormed, normalize_workspace-IsWellFormed}
use gpao_t.Sessions.Actions.{
  Request, Status, applied, Result, action_result, stamped, latest_target, with_new,
  build_new_session, Edit, refuse, commit, edit_session, finish_edit, act_on_target, create_session,
  dispatch, apply_action,
}
use gpao_t.Sessions.Files.{
  Action, new_session, unsupported, first_workspace, user_message_for_action, action_name,
  default_workspace, read_workspace, write_workspace, append_audit_event, write_and_audit,
}

pub read_workspace-IsWellFormed :
    (env : Env) (store : Store) → IsWellFormed (read_workspace env store)
unfolding read_workspace default_workspace
read_workspace-IsWellFormed env store =
    elim (store.file)
      as (λ file.
        IsWellFormed
          (elim file [ none ↦ default_workspace env | some ws ↦ normalize_workspace env ws ])) [
            | none ↦ normalize_workspace-IsWellFormed env (first_workspace env)
            | some ws ↦ normalize_workspace-IsWellFormed env ws
          ]

-- The two outcomes of an action on the workspace that was read: it is applied, or it changes nothing.
pub data Outcome (before : Workspace) (store : Store) : Result × Store → Type 0 where
  done :
      (result : Result) (event : AuditEvent)
      → result.status ≡ applied
      → event.action ≡ action_name result.action
      → IsWellFormed result.state
      → Outcome before store
          (result, record store { file = some result.state; audit = store.audit ++ event ∷ [] })
  left :
      (result : Result)
      → result.status ≢ applied
      → result.state ≡ before
      → IsWellFormed result.state
      → Outcome before store (result, store)

refused-Outcome :
    (status : Status) (reason message : String) (before : Workspace) (a : Action) (id : String)
    (store : Store)
    → status ≢ applied
    → IsWellFormed before
    → Outcome before store (action_result status reason message before a id, store)
unfolding action_result
refused-Outcome status reason message before a id store h w = left _ h refl w

applied-Outcome :
    (env : Env) (reason message : String) (before ws : Workspace) (a : Action) (id : String)
    (session : Session) (store : Store)
    → Outcome before store (
      action_result applied reason message (write_and_audit env ws a session store).0 a id,
      (write_and_audit env ws a session store).1,
    )
unfolding action_result write_and_audit write_workspace append_audit_event
applied-Outcome env reason message before ws a id session store =
    done (action_result applied reason message (write_and_audit env ws a session store).0 a id) _
      refl refl (normalize_workspace-IsWellFormed env (stamped env ws))

pub edit_session-refuse :
    (env : Env) (req : Request) (t : Session) (ws : Workspace) (a : Action) (status : Status)
    (reason message : String)
    → edit_session env req t ws a ≡ refuse status reason message
    → status ≢ applied
unfolding edit_session
edit_session-refuse env req t ws new_session st r m h = cc
edit_session-refuse env req t ws a st r m h = ground arith

finish_edit-Outcome :
    (env : Env) (req : Request) (t : Session) (before : Workspace) (store : Store) (e : Edit)
    → ((status : Status) (reason message : String)
        → e ≡ refuse status reason message
        → status ≢ applied)
    → IsWellFormed before
    → Outcome before store (finish_edit env req t before store e)
unfolding finish_edit
finish_edit-Outcome env req t before store (refuse status reason message) h w =
    refused-Outcome status reason message before req.action req.session_id store
      (h status reason message refl) w
finish_edit-Outcome env req t before store (commit ws) h w =
    applied-Outcome env "" (user_message_for_action req.action) before (stamped env ws) req.action
      req.session_id (latest_target req t (stamped env ws)) store

act_on_target-Outcome :
    (env : Env) (req : Request) (before : Workspace) (store : Store) (target : Option Session)
    → IsWellFormed before
    → Outcome before store (act_on_target env req before store target)
unfolding act_on_target
act_on_target-Outcome env req before store none w =
    refused-Outcome _ "session_not_found" _ before req.action req.session_id store (cc) w
act_on_target-Outcome env req before store (some t) w =
    finish_edit-Outcome env req t before store _ (edit_session-refuse env req t before req.action) w

dispatch-Outcome :
    (env : Env) (req : Request) (before : Workspace) (store : Store) (a : Action)
    → IsWellFormed before
    → Outcome before store (dispatch env req before store a)
unfolding dispatch create_session
dispatch-Outcome env req before store (unsupported name) w =
    refused-Outcome _ "unsupported_or_destructive_action" _ before req.action req.session_id store
      (cc) w
dispatch-Outcome env req before store new_session w =
    let session = build_new_session env req.title req.request in
    applied-Outcome env "" "새 세션을 만들고 활성 세션으로 전환했습니다." before (with_new env session before)
      req.action session.id session store
dispatch-Outcome env req before store _ w = act_on_target-Outcome env req before store _ w

-- Whatever the store and the request, the answer's workspace is well formed. An applied action leaves
-- that workspace in the file and one more audit event, of this action; any other answer leaves the
-- store and the workspace as they were.
pub apply_action-Outcome :
    (env : Env) (req : Request) (store : Store)
    → Outcome (read_workspace env store) store (apply_action env req store)
unfolding apply_action
apply_action-Outcome env req store =
    dispatch-Outcome env req _ store req.action (read_workspace-IsWellFormed env store)
