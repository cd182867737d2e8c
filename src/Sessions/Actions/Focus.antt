-- ===== src/Sessions/Actions/Focus.antt =====
-- Which session has the focus after it is selected, and after the focused one is closed.
use gpao_t.Prelude.{
  String, ◌≡◌, ◌≢◌, refl, sym, subst, ◌∙◌, Bool, true, false, not, ◌&&◌, Option, some, List, [],
  ◌∷◌, map, ◌==◌, arith, eq_iff, eq_refl, if◌then◌else◌, is_text, or_option, non_empty, find, any,
  find-holds, find-any, any-find, AllPairs-any, AllPairs-map, Bool-cases, inl, inr, ap,
}
use gpao_t.Sessions.State.{
  SessionState, active, archived, delete_pending, Session, Workspace, Store, Env,
}
use gpao_t.Sessions.Normalize.{
  id_of, has_id, find_active, is_chosen, activate, session_record, ensure_one_active,
  resolve_active_id, normalize_workspace,
}
use gpao_t.Sessions.Fields.{is_closed}
use gpao_t.Sessions.Normalize.Track.{
  Follows, as_before, session_record-Follows, ensure_one_active-Follows, find_active-ensure_loop,
}
use gpao_t.Sessions.Actions.{
  Request, applied, is_open, action_result, stamped, with_state, next_focus, next_active_session_id,
  update_session, park, select_in, close_in, edit_session, finish_edit, act_on_target, find_target,
  dispatch, apply_action,
}
use gpao_t.Sessions.Files.{
  Action, select_session, archive, mark_delete_pending, read_workspace, write_workspace,
  write_and_audit,
}
use gpao_t.Sessions.Actions.Track.{find_target-id}

Follows-chosen :
    (p : Option String) (s t : Session) → Follows as_before s t → is_chosen p t ≡ is_chosen p s
Follows-chosen p s t f = rw (f.id, f.closed_as)

any-resolve :
    (id : String) (xs : List Session)
    → any (is_chosen (some id)) xs ≡ true
    → resolve_active_id xs (some id) ≡ some id
unfolding resolve_active_id
any-resolve id xs h =
    let (u, found) = any-find (is_chosen (some id)) xs h in
    rw (
      find-any (is_chosen (some id)) (λ s. is_text (some id) s.id) xs u found
        (ground (arith, find-holds (is_chosen (some id)) xs u found)))

chosen-id : (id : String) (u : Session) → is_chosen (some id) u ≡ true → u.id ≡ id
chosen-id id u h = ground (arith, eq_iff id u.id)

non_empty-some : (id : String) → id ≢ "" → non_empty (some id) ≡ some id
non_empty-some id h = ground (arith, eq_iff id "")

ensure-focus :
    (now id : String) (xs : List Session)
    → id ≢ ""
    → any (is_chosen (some id)) xs ≡ true
    → (u : Session) × (find_active (ensure_one_active xs (resolve_active_id xs (some id)) now)
        ≡ some u)
      × (u.id ≡ id)
unfolding ensure_one_active activate
ensure-focus now id xs h a =
    let (u, found) = any-find (is_chosen (some id)) xs a in
    (
      activate now u,
      rw (
        any-resolve id xs a,
        non_empty-some id h,
        find_active-ensure_loop now (some id) xs,
        found,
      ),
      chosen-id id u (find-holds (is_chosen (some id)) xs u found),
    )

-- A workspace's focus is on the session `id`: the state names it, and it is the active one.
pub record IsFocused (id : String) (ws : Workspace) : Type 0 where
  pub named : ws.active_session_id ≡ some id
  pub found : (u : Session) × (find_active ws.sessions ≡ some u) × (u.id ≡ id)

focus-named :
    (id : String) (o : Option Session) (d : Option String) (u : Session)
    → o ≡ some u
    → u.id ≡ id
    → id ≢ ""
    → or_option (non_empty (id_of o)) d ≡ some id
focus-named id o d u h k n = rw (h, k) (ground (arith, eq_iff id ""))

normalize-IsFocused :
    (env : Env) (ws : Workspace) (id : String)
    → ws.active_session_id ≡ some id
    → id ≢ ""
    → any (is_chosen (some id)) ws.sessions ≡ true
    → IsFocused id (normalize_workspace env ws)
unfolding normalize_workspace
normalize-IsFocused env ws id h k a =
    let records = map (session_record env) ws.sessions in
    let chosen : any (is_chosen (some id)) records ≡ true =
      AllPairs-any (Follows as_before) (is_chosen (some id)) ws.sessions records
        (Follows-chosen (some id))
        (AllPairs-map (Follows as_before) (session_record env) ws.sessions
          (session_record-Follows env))
      ∙ a in
    let (u, found, same) = ensure-focus env.now id records k chosen in
    let found' : find_active
          (ensure_one_active records (resolve_active_id records ws.active_session_id) env.now)
        ≡ some u =
      rw h found in
    record { named = focus-named id _ _ u found' same k; found = (u, found', same) }

select-chosen :
    (env : Env) (id : String) (ws : Workspace) (t : Session)
    → find (has_id id) ws.sessions ≡ some t
    → any (is_chosen (some id)) (select_in env id ws).sessions ≡ true
unfolding select_in
select-chosen env id ws t h = go ws.sessions h
  where
    go :
        (xs : List Session)
        → find (has_id id) xs ≡ some t
        → any (is_chosen (some id)) (
            map
              (λ s.
                if s.id == id then record s { state = active; updated_at = env.now } else park s)
              xs)
          ≡ true
    go [] e = cc
    go (x ∷ xs) e = elim (Bool-cases (x.id == id)) [
      | inl k ↦ ground (arith, k, eq_iff x.id id, eq_refl id)
      | inr k ↦ ground (arith, k, go xs (rw k at e))
    ]

abbrev pub asking : Action → String → String → String → Request
asking a id title request = record { action = a; session_id = id; title = title; request = request }

find_target-found :
    (req : Request) (ws : Workspace) (t : Session)
    → find_target req ws ≡ some t
    → find (has_id req.session_id) ws.sessions ≡ some t
unfolding find_target
find_target-found req ws t h = ground arith

-- Selecting an open session is applied, and puts the focus on it.
pub select_session-IsFocused :
    (env : Env) (id title request : String) (store : Store) (t : Session)
    → find_target (asking select_session id title request) (read_workspace env store) ≡ some t
    → is_closed t.state ≡ false
    → ((apply_action env (asking select_session id title request) store).0.status ≡ applied)
      × IsFocused id (apply_action env (asking select_session id title request) store).0.state
unfolding apply_action dispatch act_on_target edit_session finish_edit action_result write_and_audit
    write_workspace select_in
select_session-IsFocused env id title request store t h o =
    let before = read_workspace env store in
    let req = asking select_session id title request in
    let (same, ne) = find_target-id req before t h in
    let chosen : any (is_chosen (some id)) (select_in env t.id before).sessions ≡ true =
      subst (λ k. any (is_chosen (some id)) (select_in env k before).sessions ≡ true) (sym same)
        (select-chosen env id before t (find_target-found req before t h)) in
    rw (h, o)
      (
        refl,
        normalize-IsFocused env (stamped env (stamped env (select_in env t.id before))) id
            (ap some same) ne chosen,
      )

-- A session that may take the focus from the session `id`.
abbrev pub is_successor : String → Session → Bool
is_successor id s = not (s.id == id) && is_open s.state

find-update_session :
    (id : String) (f : Session → Session) (xs : List Session)
    → ((s : Session) → (f s).id ≡ s.id)
    → find (is_successor id) (update_session id f xs) ≡ find (is_successor id) xs
unfolding update_session
find-update_session id f [] h = refl
find-update_session id f (x ∷ xs) h = elim (Bool-cases (x.id == id)) [
  | inl e ↦ rw (e, h x, e) (find-update_session id f xs h)
  | inr e ↦ rw (e, e, find-update_session id f xs h)
]

successor-chosen :
    (id : String) (v : Session) → is_successor id v ≡ true → is_chosen (some v.id) v ≡ true
unfolding is_open
successor-chosen id v h = ground (arith, eq_refl v.id)

close_in-chosen :
    (env : Env) (c : SessionState) (id : String) (ws : Workspace) (v : Session)
    → find (is_successor id) ws.sessions ≡ some v
    → any (is_chosen (some v.id)) (close_in env c id ws).sessions ≡ true
unfolding close_in
close_in-chosen env c id ws v h =
    let closing = update_session id (with_state env c) ws.sessions in
    let found : find (is_successor id) closing ≡ some v =
      find-update_session id (with_state env c) ws.sessions (λ s. refl) ∙ h in
    AllPairs-any (Follows as_before) (is_chosen (some v.id)) closing _ (Follows-chosen (some v.id))
      (ensure_one_active-Follows closing (next_focus ws.active_session_id closing id) env.now)
    ∙ find-any (is_successor id) (is_chosen (some v.id)) closing v found
        (successor-chosen id v (find-holds (is_successor id) closing v found))

close_in-named :
    (env : Env) (c : SessionState) (id : String) (ws : Workspace) (v : Session)
    → ws.active_session_id ≡ some id
    → find (is_successor id) ws.sessions ≡ some v
    → v.id ≢ ""
    → (close_in env c id ws).active_session_id ≡ some v.id
unfolding close_in next_focus next_active_session_id
close_in-named env c id ws v h k n =
    rw (h, eq_refl id)
      (ap (λ o. non_empty (id_of o))
          (find-update_session id (with_state env c) ws.sessions (λ s. refl) ∙ k)
        ∙ non_empty-some v.id n)

-- The two actions that close a session.
pub data IsClosing : Action → Type 0 where
  archives : IsClosing archive
  deletes : IsClosing mark_delete_pending

close_in-IsFocused :
    (env : Env) (c : SessionState) (id : String) (ws : Workspace) (v : Session)
    → ws.active_session_id ≡ some id
    → find (is_successor id) ws.sessions ≡ some v
    → v.id ≢ ""
    → IsFocused v.id (normalize_workspace env (stamped env (stamped env (close_in env c id ws))))
close_in-IsFocused env c id ws v h k n =
    normalize-IsFocused env (stamped env (stamped env (close_in env c id ws))) v.id
      (close_in-named env c id ws v h k n) n (close_in-chosen env c id ws v k)

-- Archiving the session that has the focus, or marking it for deletion, is applied and moves the
-- focus to the first other open session, if there is one.
pub close-IsFocused :
    (env : Env) (a : Action) (id title request : String) (store : Store) (t v : Session)
    → IsClosing a
    → find_target (asking a id title request) (read_workspace env store) ≡ some t
    → (read_workspace env store).active_session_id ≡ some id
    → find (is_successor id) (read_workspace env store).sessions ≡ some v
    → v.id ≢ ""
    → ((apply_action env (asking a id title request) store).0.status ≡ applied)
      × IsFocused v.id (apply_action env (asking a id title request) store).0.state
unfolding apply_action dispatch act_on_target edit_session finish_edit action_result write_and_audit
    write_workspace
close-IsFocused env a id title request store t v archives h named next n =
    let before = read_workspace env store in
    let same : t.id ≡ id = (find_target-id (asking archive id title request) before t h).0 in
    rw (h, same) (refl, close_in-IsFocused env archived id before v named next n)
close-IsFocused env a id title request store t v deletes h named next n =
    let before = read_workspace env store in
    let same : t.id ≡ id =
      (find_target-id (asking mark_delete_pending id title request) before t h).0 in
    rw (h, same) (refl, close_in-IsFocused env delete_pending id before v named next n)
