-- ===== src/Sessions/Normalize/Invariant.antt =====
-- What `normalizeSessionWorkspaceState` establishes of any stored workspace.
use gpao_t.Prelude.{
  ℕ, ◌≤◌, ◌+◌, String, ◌≡◌, ◌≢◌, refl, Bool, true, false, not, ◌&&◌, ◌||◌, Option, some, List, [],
  ◌∷◌, arith, eq_iff, inl, inr, if◌then◌else◌, or_option, non_empty, All, All-map, Bool-cases,
}
use gpao_t.Sessions.State.{SessionState, active, draft, unlabelled, Session, Workspace, Env}
use gpao_t.Sessions.Normalize.{
  session_record, id_of, find_active, is_chosen, activate, relabel, ensure_loop, ensure_one_active,
  normalize_workspace,
}
use gpao_t.Sessions.Fields.{
  state_label, known_state, is_active, normalize_memory_scope, normalize_authority_gate,
}

-- How many sessions are active.
pub count_active : List Session → ℕ
count_active [] = 0
count_active (s ∷ sessions) = (if is_active s.state then 1 else 0) + count_active sessions

abbrev pub IsKnown : SessionState → Type 0
IsKnown (unlabelled s) = ⊥
IsKnown _ = Unit

-- A session that shows its state and whose gates are shut.
pub record IsGuarded (s : Session) : Type 0 where
  pub known : IsKnown s.state
  pub label : s.state_label ≡ state_label s.state
  pub promotion : s.memory_scope.durable_promotion ≡ "blocked"
  pub deletion : s.authority_gate.permanent_delete ≡ "blocked"
  pub sending : s.authority_gate.external_send ≡ "blocked"
  pub promotion_gate : s.authority_gate.durable_memory_promotion ≡ "blocked"
  pub compatibility : s.authority_gate.compatibility_memory_write ≡ "blocked"
  pub connector : s.authority_gate.connector_activation ≡ "blocked"
  pub provider : s.authority_gate.model_provider_call ≡ "blocked"

-- At most one session is active, the state names it, and every session is guarded.
pub record IsWellFormed (ws : Workspace) : Type 0 where
  pub single : count_active ws.sessions ≤ 1
  pub focus :
      (s : Session)
      → find_active ws.sessions ≡ some s
      → s.id ≢ ""
      → ws.active_session_id ≡ some s.id
  pub guarded : All IsGuarded ws.sessions

session_record-IsGuarded : (env : Env) (s : Session) → IsGuarded (session_record env s)
unfolding session_record known_state state_label normalize_memory_scope normalize_authority_gate
session_record-IsGuarded env s = record {
  known = ground arith;
  label = refl;
  promotion = refl;
  deletion = refl;
  sending = refl;
  promotion_gate = refl;
  compatibility = refl;
  connector = refl;
  provider = refl;
}

activate-IsGuarded : (now : String) (s : Session) → IsGuarded s → IsGuarded (activate now s)
unfolding activate
activate-IsGuarded now s g = record {
  known = tt;
  label = refl;
  promotion = g.promotion;
  deletion = g.deletion;
  sending = g.sending;
  promotion_gate = g.promotion_gate;
  compatibility = g.compatibility;
  connector = g.connector;
  provider = g.provider;
}

relabel-IsKnown : (t : SessionState) → IsKnown t → IsKnown (if is_active t then draft else t)
relabel-IsKnown active k = tt
relabel-IsKnown t k = k

relabel-IsGuarded : (s : Session) → IsGuarded s → IsGuarded (relabel s)
unfolding relabel
relabel-IsGuarded s g = record {
  known = relabel-IsKnown s.state g.known;
  label = refl;
  promotion = g.promotion;
  deletion = g.deletion;
  sending = g.sending;
  promotion_gate = g.promotion_gate;
  compatibility = g.compatibility;
  connector = g.connector;
  provider = g.provider;
}

pub relabel-inactive : (s : Session) → is_active (relabel s).state ≡ false
unfolding relabel
relabel-inactive s = ground arith

count-ensure_loop_done :
    (now : String) (p : Option String) (xs : List Session)
    → count_active (ensure_loop now p true xs) ≡ 0
unfolding count_active ensure_loop
count-ensure_loop_done now p [] = refl
count-ensure_loop_done now p (s ∷ xs) =
    rw (relabel-inactive s) (omega (arith, count-ensure_loop_done now p xs))

pub count-ensure_loop :
    (now : String) (p : Option String) (xs : List Session)
    → count_active (ensure_loop now p false xs) ≤ 1
unfolding count_active ensure_loop activate
count-ensure_loop now p [] = omega arith
count-ensure_loop now p (s ∷ xs) = elim (Bool-cases (is_chosen p s)) [
  | inl h ↦ rw h (omega (arith, count-ensure_loop_done now p xs))
  | inr h ↦ rw (h, relabel-inactive s) (omega (arith, count-ensure_loop now p xs))
]

ensure_loop-IsGuarded :
    (now : String) (p : Option String) (assigned : Bool) (xs : List Session)
    → All IsGuarded xs
    → All IsGuarded (ensure_loop now p assigned xs)
unfolding ensure_loop
ensure_loop-IsGuarded now p assigned [] h = tt
ensure_loop-IsGuarded now p assigned (s ∷ xs) (g, h) = (
  elim (not assigned && is_chosen p s)
      as (λ b. IsGuarded (if b then activate now s else relabel s)) [
        | true ↦ activate-IsGuarded now s g
        | false ↦ relabel-IsGuarded s g
      ],
  ensure_loop-IsGuarded now p (assigned || (not assigned && is_chosen p s)) xs h,
)

focus_of :
    (o : Option Session) (d : Option String) (s : Session)
    → o ≡ some s
    → s.id ≢ ""
    → or_option (non_empty (id_of o)) d ≡ some s.id
focus_of o d s h k = rw h (ground (arith, eq_iff s.id ""))

-- Whatever the file holds, the normalised workspace has at most one active session, the active
-- one's id as its active id where that id is not empty, and in every session a known state with its
-- label, a blocked durable promotion of its memory, and a gate that blocks all of: to delete for good, to
-- promote to durable memory, to write compatible memory, to send, to activate a connector, and to call
-- a model provider.
pub normalize_workspace-IsWellFormed :
    (env : Env) (ws : Workspace) → IsWellFormed (normalize_workspace env ws)
unfolding normalize_workspace ensure_one_active
normalize_workspace-IsWellFormed env ws = record {
  single = count-ensure_loop env.now _ _;
  focus = λ s h k. focus_of _ _ s h k;
  guarded =
      ensure_loop-IsGuarded env.now _ false _
        (All-map IsGuarded (session_record env) ws.sessions (session_record-IsGuarded env));
}
