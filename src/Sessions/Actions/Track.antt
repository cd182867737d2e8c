-- ===== src/Sessions/Actions/Track.antt =====
-- What an action does to the sessions in their places: none is lost, each is closed or open as the
-- action says, and none has its stored lifecycle updated.
use gpao_t.Prelude.{
  String, ◌≡◌, ◌≢◌, refl, subst, Bool, true, false, ◌&&◌, Option, none, some, List, [], ◌∷◌, map,
  ◌==◌, arith, eq_iff, if◌then◌else◌, find, AllPairs, AllPairs-map, AllPairs-trans, AllPairs-refl,
  Bool-cases, inl, inr, trim,
}
use gpao_t.Sessions.State.{SessionState, archived, delete_pending, Session, Workspace, Store, Env}
use gpao_t.Sessions.Normalize.{has_id}
use gpao_t.Sessions.Fields.{is_closed, is_delete_pending}
use gpao_t.Sessions.Normalize.Track.{
  Follows, Follows-refl, Follows-trans, as_before, ensure_one_active-Follows,
  normalize_workspace-Follows,
}
use gpao_t.Sessions.Actions.Outcome.{edit_session-refuse}
use gpao_t.Sessions.Actions.{
  Request, Status, applied, Result, Edit, refuse, commit, action_result, stamped, with_new,
  build_new_session, create_session, finish_edit, act_on_target, find_target, dispatch,
  apply_action, with_state, next_focus, renamed, pin_toggled, update_session, park, select_in,
  close_in, reopen_in, edit_session,
}
use gpao_t.Sessions.Files.{
  Action, new_session, select_session, rename, toggle_pin, archive, restore, mark_delete_pending,
  cancel_delete_pending, unsupported, write_workspace, write_and_audit, read_workspace,
}

-- Whether a session is closed after an action on the session `id`.
abbrev pub closed_after : Action → String → Session → Bool
closed_after select_session id s = if s.id == id then false else is_closed s.state
closed_after archive id s = if s.id == id then true else is_closed s.state
closed_after mark_delete_pending id s = if s.id == id then true else is_closed s.state
closed_after restore id s = if s.id == id then false else is_closed s.state
closed_after cancel_delete_pending id s =
    if s.id == id && is_delete_pending s.state then false else is_closed s.state
closed_after _ id s = is_closed s.state

update_session-Follows :
    (closed : Session → Bool) (id : String) (f : Session → Session) (xs : List Session)
    → ((s : Session) → Follows closed s (if s.id == id then f s else s))
    → AllPairs (Follows closed) xs (update_session id f xs)
unfolding update_session
update_session-Follows closed id f xs h = AllPairs-map (Follows closed) _ xs h

select_in-Follows :
    (env : Env) (id : String) (ws : Workspace)
    → AllPairs (Follows (closed_after select_session id)) ws.sessions (select_in env id ws).sessions
unfolding select_in
select_in-Follows env id ws =
    AllPairs-map (Follows (closed_after select_session id)) _ ws.sessions
      λ s. record { id = ground arith; lifecycle = λ l h. ground arith; closed_as = ground arith }

close_in-Follows :
    (env : Env) (closed : SessionState) (a : Action) (id : String) (ws : Workspace)
    → is_closed closed ≡ true
    → ((s : Session) → closed_after a id s ≡ (if s.id == id then true else is_closed s.state))
    → AllPairs (Follows (closed_after a id)) ws.sessions (close_in env closed id ws).sessions
unfolding close_in
close_in-Follows env closed a id ws h k =
    let closing = update_session id (with_state env closed) ws.sessions in
    AllPairs-trans (Follows (closed_after a id)) (Follows as_before) (Follows (closed_after a id))
      (Follows-trans (closed_after a id)) ws.sessions closing _
      (update_session-Follows (closed_after a id) id (with_state env closed) ws.sessions λ s.
        record {
          id = ground arith;
          lifecycle = λ l e. ground arith;
          closed_as = ground (arith, k s);
        })
      (ensure_one_active-Follows closing (next_focus ws.active_session_id closing id) env.now)

reopen_in-Follows :
    (env : Env) (from : SessionState → Bool) (a : Action) (id : String) (ws : Workspace)
    → ((s : Session)
        → closed_after a id s ≡ (
            if s.id == id
            then (if from s.state then false else is_closed s.state)
            else is_closed s.state))
    → AllPairs (Follows (closed_after a id)) ws.sessions (reopen_in env from id ws).sessions
unfolding reopen_in
reopen_in-Follows env from a id ws k =
    update_session-Follows (closed_after a id) id _ ws.sessions λ s. record {
      id = ground arith;
      lifecycle = λ l e. ground arith;
      closed_as = ground (arith, k s);
    }

-- A commit follows the sessions that it was made from.
abbrev EditFollows : (Session → Bool) → Workspace → Edit → Type 0
EditFollows closed ws (refuse status reason message) = Unit
EditFollows closed ws (commit ws') = AllPairs (Follows closed) ws.sessions ws'.sessions

renaming-Follows :
    (env : Env) (title id : String) (ws : Workspace)
    → AllPairs
        (Follows (closed_after rename id))
        ws.sessions
        (update_session id (renamed env title) ws.sessions)
renaming-Follows env title id ws =
    update_session-Follows (closed_after rename id) id (renamed env title) ws.sessions
      λ s. record { id = ground arith; lifecycle = λ l e. ground arith; closed_as = ground arith }

edit_session-Follows :
    (env : Env) (req : Request) (t : Session) (ws : Workspace) (a : Action)
    → EditFollows (closed_after a t.id) ws (edit_session env req t ws a)
unfolding edit_session
edit_session-Follows env req t ws new_session = AllPairs-refl _ ws.sessions Follows-refl
edit_session-Follows env req t ws select_session = elim (Bool-cases (is_closed t.state)) [
  | inl h ↦ rw h tt
  | inr h ↦ rw h (select_in-Follows env t.id ws)
]
edit_session-Follows env req t ws rename = elim (Bool-cases (trim req.title == "")) [
  | inl h ↦ rw h tt
  | inr h ↦ rw h (renaming-Follows env req.title t.id ws)
]
edit_session-Follows env req t ws toggle_pin =
    update_session-Follows (closed_after toggle_pin t.id) t.id (pin_toggled env) ws.sessions
      λ s. record { id = ground arith; lifecycle = λ l e. ground arith; closed_as = ground arith }
edit_session-Follows env req t ws archive =
    close_in-Follows env archived archive t.id ws refl (λ s. refl)
edit_session-Follows env req t ws restore =
    reopen_in-Follows env is_closed restore t.id ws (λ s. ground arith)
edit_session-Follows env req t ws mark_delete_pending =
    close_in-Follows env delete_pending mark_delete_pending t.id ws refl (λ s. refl)
edit_session-Follows env req t ws cancel_delete_pending =
    reopen_in-Follows env is_delete_pending cancel_delete_pending t.id ws (λ s. ground arith)
edit_session-Follows env req t ws (unsupported name) = AllPairs-refl _ ws.sessions Follows-refl

find-has_id :
    (id : String) (xs : List Session) (t : Session) → find (has_id id) xs ≡ some t → t.id ≡ id
find-has_id id [] t h = cc
find-has_id id (x ∷ xs) t h = ground (arith, eq_iff x.id id, find-has_id id xs t)

pub find_target-id :
    (req : Request) (ws : Workspace) (t : Session)
    → find_target req ws ≡ some t
    → (t.id ≡ req.session_id) × (req.session_id ≢ "")
unfolding find_target
find_target-id req ws t h = (
  ground (arith, find-has_id req.session_id ws.sessions t),
  ground (arith, eq_iff req.session_id ""),
)

-- What an applied answer says of the sessions in their places.
abbrev Tracks : (Session → Bool) → Workspace → Result × Store → Type 0
Tracks closed before out =
    out.0.status ≡ applied → AllPairs (Follows closed) before.sessions out.0.state.sessions

finish_edit-Tracks :
    (env : Env) (req : Request) (t : Session) (before : Workspace) (store : Store)
    (closed : Session → Bool) (e : Edit)
    → EditFollows closed before e
    → ((status : Status) (reason message : String)
        → e ≡ refuse status reason message
        → status ≢ applied)
    → Tracks closed before (finish_edit env req t before store e)
unfolding finish_edit action_result write_and_audit write_workspace
finish_edit-Tracks env req t before store closed (refuse status reason message) f h =
    λ e. absurd (h status reason message refl e)
finish_edit-Tracks env req t before store closed (commit ws) f h = λ e.
    AllPairs-trans (Follows closed) (Follows as_before) (Follows closed) (Follows-trans closed)
      before.sessions ws.sessions _ f
      (normalize_workspace-Follows env (stamped env (stamped env ws)))

act_on_target-Tracks :
    (env : Env) (req : Request) (before : Workspace) (store : Store) (target : Option Session)
    → ((t : Session) → target ≡ some t → t.id ≡ req.session_id)
    → Tracks
        (closed_after req.action req.session_id)
        before
        (act_on_target env req before store target)
unfolding act_on_target action_result
act_on_target-Tracks env req before store none h = λ e. cc
act_on_target-Tracks env req before store (some t) h =
    subst
      (λ id.
        Tracks (closed_after req.action id) before
          (finish_edit env req t before store (edit_session env req t before req.action)))
      (h t refl)
      (finish_edit-Tracks env req t before store (closed_after req.action t.id)
        (edit_session env req t before req.action)
        (edit_session-Follows env req t before req.action)
        (edit_session-refuse env req t before req.action))

dispatch-Tracks :
    (env : Env) (req : Request) (before : Workspace) (store : Store) (a : Action)
    → a ≢ new_session
    → Tracks (closed_after req.action req.session_id) before (dispatch env req before store a)
unfolding dispatch action_result
dispatch-Tracks env req before store (unsupported name) h = λ e. cc
dispatch-Tracks env req before store new_session h = absurd (h refl)
dispatch-Tracks env req before store _ h =
    act_on_target-Tracks env req before store (find_target req before)
      (λ t e. (find_target-id req before t e).0)

-- An applied action other than a new session keeps every session in its place with its id, closes
-- or reopens exactly the sessions that `closed_after` says, and leaves every stored lifecycle
-- object as it was, also that of a session whose state it changed.
pub apply_action-Follows :
    (env : Env) (req : Request) (store : Store)
    → req.action ≢ new_session
    → (apply_action env req store).0.status ≡ applied
    → AllPairs
        (Follows (closed_after req.action req.session_id))
        (read_workspace env store).sessions
        (apply_action env req store).0.state.sessions
unfolding apply_action
apply_action-Follows env req store h =
    dispatch-Tracks env req (read_workspace env store) store req.action h

park-Follows : (s : Session) → Follows as_before s (park s)
park-Follows s = record {
  id = ground arith;
  lifecycle = λ l e. ground arith;
  closed_as = ground arith;
}

-- A new session stands before all the others, which keep their places, their ids, their lifecycle
-- objects and whether they are closed.
pub create-Follows :
    (env : Env) (title request : String) (store : Store)
    → let before = read_workspace env store in
      let req : Request = record {
        action = new_session;
        session_id = "";
        title = title;
        request = request;
      } in
      AllPairs
        (Follows as_before)
        (build_new_session env title request ∷ before.sessions)
        (apply_action env req store).0.state.sessions
unfolding apply_action dispatch create_session action_result write_and_audit write_workspace
create-Follows env title request store =
    let before = read_workspace env store in
    let session = build_new_session env title request in
    AllPairs-trans (Follows as_before) (Follows as_before) (Follows as_before)
      (Follows-trans as_before) (session ∷ before.sessions) (session ∷ map park before.sessions) _
      (Follows-refl session, AllPairs-map (Follows as_before) park before.sessions park-Follows)
      (normalize_workspace-Follows env (stamped env (with_new env session before)))
