-- ===== src/Sessions/Tests.antt =====
-- The session workspace at concrete stores: a first start, and an archived session.
use gpao_t.Prelude.{
  ◌≡◌, ◌≢◌, refl, false, Option, none, some, [], ◌∷◌, ◌==◌, eq_iff, AllPairs, find,
}
use gpao_t.Sessions.State.{empty_session, Session, Store, Env}
use gpao_t.Sessions.Normalize.{
  resolve_active_id, session_record, ensure_one_active, ensure_loop, normalize_workspace,
}
use gpao_t.Sessions.Normalize.Invariant.{IsWellFormed, normalize_workspace-IsWellFormed}
use gpao_t.Sessions.Normalize.Track.{Follows, as_before, normalize_workspace-Follows}
use gpao_t.Sessions.Files.{
  default_workspace, default_sessions, default_session, new_session, select_session, archive,
  first_workspace, read_workspace,
}
use gpao_t.Sessions.Fields.{is_closed}
use gpao_t.Sessions.Actions.{
  is_open, dispatch, act_on_target, find_target, edit_session, finish_edit, action_result, Request,
  applied, build_new_session, apply_action,
}
use gpao_t.Sessions.Actions.Outcome.{Outcome, apply_action-Outcome}
use gpao_t.Sessions.Actions.Track.{closed_after, apply_action-Follows, create-Follows}
use gpao_t.Sessions.Actions.Focus.{
  IsFocused, asking, is_successor, archives, select_session-IsFocused, close-IsFocused,
}

abbrev env : Env
env = record {
  now = "2026-06-01T09:00:00.000Z";
  clock = "2026-06-01T09:00:00.000Z";
  session_stamp = "20260601090000";
  event_stamp = "20260601090000000";
  derive_title = λ request. request;
}

abbrev first_store : Store
first_store = record { file = none; audit = [] }

abbrev archive_current : Request
archive_current = asking archive "session.current" "" ""

normalize_workspace-IsWellFormed_example :
    IsWellFormed (normalize_workspace env (first_workspace env))
normalize_workspace-IsWellFormed_example =
    normalize_workspace-IsWellFormed env (first_workspace env)

normalize_workspace-Follows_example :
    AllPairs
      (Follows as_before)
      (first_workspace env).sessions
      (normalize_workspace env (first_workspace env)).sessions
normalize_workspace-Follows_example = normalize_workspace-Follows env (first_workspace env)

apply_action-Outcome_example :
    Outcome
      (read_workspace env first_store)
      first_store
      (apply_action env archive_current first_store)
apply_action-Outcome_example = apply_action-Outcome env archive_current first_store

create-Follows_example :
    let req : Request = asking new_session "" "Notes" "Write notes" in
    AllPairs
      (Follows as_before)
      (build_new_session env "Notes" "Write notes" ∷ (read_workspace env first_store).sessions)
      (apply_action env req first_store).0.state.sessions
create-Follows_example = create-Follows env "Notes" "Write notes" first_store

archived_now : (apply_action env archive_current first_store).0.status ≡ applied
unfolding apply_action dispatch act_on_target find_target edit_session finish_edit action_result
    read_workspace default_workspace first_workspace default_sessions default_session
    normalize_workspace session_record ensure_one_active ensure_loop
archived_now = refl

not_new : archive ≢ new_session
not_new h = cc

apply_action-Follows_example :
    AllPairs
      (Follows (closed_after archive "session.current"))
      (read_workspace env first_store).sessions
      (apply_action env archive_current first_store).0.state.sessions
apply_action-Follows_example =
    apply_action-Follows env archive_current first_store not_new archived_now

-- The session that the tests find.
abbrev found : Option Session → Session
found none = empty_session
found (some s) = s

abbrev select_draft : Request
select_draft = asking select_session "session.draft.control-center" "" ""

abbrev draft_session : Session
draft_session = found (find_target select_draft (read_workspace env first_store))

draft_found : find_target select_draft (read_workspace env first_store) ≡ some draft_session
unfolding find_target read_workspace default_workspace first_workspace default_sessions
    default_session normalize_workspace session_record ensure_one_active ensure_loop
draft_found = refl

draft_open : is_closed draft_session.state ≡ false
unfolding find_target read_workspace default_workspace first_workspace default_sessions
    default_session normalize_workspace session_record ensure_one_active ensure_loop
draft_open = refl

select_session-IsFocused_example :
    ((apply_action env select_draft first_store).0.status ≡ applied)
    × IsFocused "session.draft.control-center" (apply_action env select_draft first_store).0.state
select_session-IsFocused_example =
    select_session-IsFocused env "session.draft.control-center" "" "" first_store draft_session
      draft_found draft_open

abbrev current_session : Session
current_session = found (find_target archive_current (read_workspace env first_store))

abbrev next_session : Session
next_session =
    found (find (is_successor "session.current") (read_workspace env first_store).sessions)

current_found : find_target archive_current (read_workspace env first_store) ≡ some current_session
unfolding find_target read_workspace default_workspace first_workspace default_sessions
    default_session normalize_workspace session_record ensure_one_active ensure_loop
current_found = refl

current_named : (read_workspace env first_store).active_session_id ≡ some "session.current"
unfolding read_workspace default_workspace first_workspace default_sessions default_session
    normalize_workspace session_record ensure_one_active ensure_loop resolve_active_id
current_named = refl

next_found :
    find (is_successor "session.current") (read_workspace env first_store).sessions
    ≡ some next_session
unfolding read_workspace default_workspace first_workspace default_sessions default_session
    normalize_workspace session_record ensure_one_active ensure_loop is_open
next_found = refl

next_test : (next_session.id == "") ≡ false
unfolding read_workspace default_workspace first_workspace default_sessions default_session
    normalize_workspace session_record ensure_one_active ensure_loop is_open
next_test = refl

next_named : next_session.id ≢ ""
next_named h = cc (next_test, (eq_iff next_session.id "").1 h)

close-IsFocused_example :
    ((apply_action env archive_current first_store).0.status ≡ applied)
    × IsFocused next_session.id (apply_action env archive_current first_store).0.state
close-IsFocused_example =
    close-IsFocused env archive "session.current" "" "" first_store current_session next_session
      archives current_found current_named next_found next_named
