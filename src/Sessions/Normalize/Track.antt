-- ===== src/Sessions/Normalize/Track.antt =====
-- Normalising keeps every session in its place: its id, its stored lifecycle and whether it is
-- closed. Which session becomes active.
use gpao_t.Prelude.{
  String, ◌≡◌, refl, sym, ◌∙◌, Bool, true, false, Option, some, List, [], ◌∷◌, map, arith, find,
  AllPairs, AllPairs-map, AllPairs-trans, Bool-cases, inl, inr,
}
use mathlib.Core.Option
use gpao_t.Sessions.Normalize.Invariant.{relabel-inactive}
use gpao_t.Sessions.State.{SessionState, Lifecycle, Session, Workspace, Env}
use gpao_t.Sessions.Normalize.{
  session_record, find_active, is_chosen, activate, relabel, ensure_loop, ensure_one_active,
  resolve_active_id, normalize_workspace,
}
use gpao_t.Sessions.Fields.{known_state, lifecycle_record, is_closed}

-- `t` stands where `s` stood: the same id, a stored lifecycle as it was, and closed as `closed` says.
pub record Follows (closed : Session → Bool) (s t : Session) : Type 0 where
  pub id : t.id ≡ s.id
  pub lifecycle : (l : Lifecycle) → s.lifecycle ≡ some l → t.lifecycle ≡ some l
  pub closed_as : is_closed t.state ≡ closed s

abbrev pub as_before : Session → Bool
as_before s = is_closed s.state

pub Follows-refl : (s : Session) → Follows as_before s s
Follows-refl s = record { id = refl; lifecycle = λ l h. h; closed_as = refl }

pub Follows-trans :
    (closed : Session → Bool) (s t u : Session)
    → Follows closed s t
    → Follows as_before t u
    → Follows closed s u
Follows-trans closed s t u p q = record {
  id = q.id ∙ p.id;
  lifecycle = λ l h. q.lifecycle l (p.lifecycle l h);
  closed_as = q.closed_as ∙ p.closed_as;
}

known_state-closed : (t : SessionState) → is_closed (known_state t) ≡ is_closed t
unfolding known_state
known_state-closed t = ground arith

pub session_record-Follows : (env : Env) (s : Session) → Follows as_before s (session_record env s)
unfolding session_record lifecycle_record
session_record-Follows env s = record {
  id = refl;
  lifecycle = λ l h. rw h;
  closed_as = known_state-closed s.state;
}

activate-Follows :
    (now : String) (s : Session) → is_closed s.state ≡ false → Follows as_before s (activate now s)
unfolding activate
activate-Follows now s h = record { id = refl; lifecycle = λ l e. e; closed_as = sym h }

relabel-Follows : (s : Session) → Follows as_before s (relabel s)
unfolding relabel
relabel-Follows s = record { id = refl; lifecycle = λ l e. e; closed_as = ground arith }

chosen-open : (p : Option String) (s : Session) → is_chosen p s ≡ true → is_closed s.state ≡ false
chosen-open p s h = ground arith

ensure_loop-Follows :
    (now : String) (p : Option String) (assigned : Bool) (xs : List Session)
    → AllPairs (Follows as_before) xs (ensure_loop now p assigned xs)
unfolding ensure_loop
ensure_loop-Follows now p assigned [] = tt
ensure_loop-Follows now p true (s ∷ xs) = (relabel-Follows s, ensure_loop-Follows now p true xs)
ensure_loop-Follows now p false (s ∷ xs) = elim (Bool-cases (is_chosen p s)) [
  | inl h ↦ rw h (activate-Follows now s (chosen-open p s h), ensure_loop-Follows now p true xs)
  | inr h ↦ rw h (relabel-Follows s, ensure_loop-Follows now p false xs)
]

pub ensure_one_active-Follows :
    (xs : List Session) (p : Option String) (now : String)
    → AllPairs (Follows as_before) xs (ensure_one_active xs p now)
unfolding ensure_one_active
ensure_one_active-Follows xs p now = ensure_loop-Follows now _ false xs

-- Normalising a workspace keeps every session in its place, with its id, its stored lifecycle
-- object and whether it is closed.
pub normalize_workspace-Follows :
    (env : Env) (ws : Workspace)
    → AllPairs (Follows as_before) ws.sessions (normalize_workspace env ws).sessions
unfolding normalize_workspace
normalize_workspace-Follows env ws =
    AllPairs-trans (Follows as_before) (Follows as_before) (Follows as_before)
      (Follows-trans as_before) ws.sessions (map (session_record env) ws.sessions) _
      (AllPairs-map (Follows as_before) (session_record env) ws.sessions
        (session_record-Follows env))
      (ensure_one_active-Follows _
        (resolve_active_id (map (session_record env) ws.sessions) ws.active_session_id) env.now)

-- The loop makes active the first session that it may choose, and no other.
pub find_active-ensure_loop :
    (now : String) (p : Option String) (xs : List Session)
    → find_active (ensure_loop now p false xs) ≡ Option.map (activate now) (find (is_chosen p) xs)
unfolding ensure_loop
find_active-ensure_loop now p [] = refl
find_active-ensure_loop now p (s ∷ xs) = elim (Bool-cases (is_chosen p s)) [
  | inl h ↦ rw h (unfold activate in refl)
  | inr h ↦ rw (h, relabel-inactive s) (find_active-ensure_loop now p xs)
]
