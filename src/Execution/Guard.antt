-- ===== src/Execution/Guard.antt =====
-- What a dry run does to the outside, and when.
use gpao_t.Prelude.{
  String, Bool, true, false, not, ◌&&◌, ◌≡◌, refl, Option, none, some, List, [], ◌∷◌, ◌++◌, ◌==◌,
  collect, is_empty, Outcome, returned, threw, All, clear_of_empty, not-false, eq_of_is_text,
  if-holds, false_of_not, not_empty-append, some_injective, Bool-cases, inl, inr, subst,
}
use gpao_t.Execution.{
  Command, Env, Approval, find_command, command_in, safe_commands, approval_checks, verify_approval,
  progress_of, is_exactly_false, Progress, stopped, running, complete, error, Effect, noted,
  executed, failure, parse_output, Invocation, blocked, failed_dry_run_invocation,
  completed_dry_run_invocation, blocked_with, ran_with, invoke_command, invoke_dry_run,
}

-- What the approval of a run has said: yes, to this command, as a dry run, without mutation.
pub record IsApproved (id : String) (a : Approval) : Type 0 where
  pub confirmed : a.confirmed ≡ true
  pub scope : a.command_id ≡ some id
  pub tier : a.authority_tier ≡ some "dry_run"
  pub still : a.allow_mutation ≡ some false

exactly_false : (o : Option Bool) → is_exactly_false o ≡ true → o ≡ some false
exactly_false none h = cc
exactly_false (some true) h = cc
exactly_false (some false) h = refl

checks-IsApproved :
    (id : String) (c : Option Command) (a : Approval)
    → is_empty (collect (approval_checks id c a)) ≡ true
    → IsApproved id a
unfolding approval_checks
checks-IsApproved id c a h =
    let (_, (y, (s, (t, (m, _))))) = clear_of_empty (approval_checks id c a) h in
    record {
      confirmed = not-false a.confirmed y;
      scope = eq_of_is_text a.command_id id s;
      tier = eq_of_is_text a.authority_tier "dry_run" t;
      still = exactly_false a.allow_mutation (not-false _ m);
    }

-- How the end of a run follows from its result.
pub data Ended (env : Env) : Outcome String → Progress → Invocation → Type 0 where
  passed :
      (stdout : String) (p : Progress) (i : Invocation)
      → p.status ≡ complete
      → i.status ≡ completed_dry_run_invocation
      → i.output ≡ some (parse_output env stdout)
      → Ended env (returned stdout) p i
  broken :
      (message : String) (p : Progress) (i : Invocation)
      → p.status ≡ error
      → i.status ≡ failed_dry_run_invocation
      → i.output ≡ some (failure message)
      → Ended env (threw message) p i

-- The two ways of an invocation: it is blocked, and its one effect is an event that says so, or it ran a
-- listed command that mutates nothing, once, between two events, with an approval.
pub data Guarded (env : Env) (id : String) (a : Approval) : Invocation × List Effect → Type 0 where
  held :
      (i : Invocation) (p : Progress)
      → i.status ≡ blocked
      → i.output ≡ none
      → i.progress_events ≡ p ∷ []
      → p.status ≡ stopped
      → is_empty i.findings ≡ false
      → Guarded env id a (i, noted p ∷ [])
  ran :
      (i : Invocation) (c : Command) (started ended : Progress)
      → find_command env id ≡ some c
      → c.expected_mutation ≡ false
      → (c.recursive_surface && not a.allow_recursive) ≡ false
      → IsApproved id a
      → i.progress_events ≡ started ∷ ended ∷ []
      → started.status ≡ running
      → (result : Outcome String) → env.execute c.program c.args ≡ result
      → Ended env result ended i
      → Guarded env id a (i, noted started ∷ executed c.program c.args ∷ noted ended ∷ [])

command_in-still :
    (commands : List (String × Command)) (id : String) (c : Command)
    → All (λ entry. entry.1.expected_mutation ≡ false) commands
    → command_in id commands ≡ some c
    → c.expected_mutation ≡ false
command_in-still [] id c h e = cc
command_in-still ((key, d) ∷ commands) id c (h, hs) e = elim (Bool-cases (key == id)) [
  | inl k ↦ subst (λ x. x.expected_mutation ≡ false) (some_injective d c (rw k at e)) h
  | inr k ↦ command_in-still commands id c hs (rw k at e)
]

find_command-still :
    (env : Env) (id : String) (c : Command)
    → find_command env id ≡ some c
    → c.expected_mutation ≡ false
unfolding find_command
find_command-still env id c h =
    command_in-still (safe_commands env) id c (refl, (refl, (refl, tt))) h

ran_with-Guarded :
    (env : Env) (id : String) (a : Approval) (c : Command) (findings : List String)
    → find_command env id ≡ some c
    → (c.recursive_surface && not a.allow_recursive) ≡ false
    → IsApproved id a
    → (o : Outcome String) → env.execute c.program c.args ≡ o
    → Guarded env id a (ran_with env id a c findings o)
unfolding ran_with progress_of
ran_with-Guarded env id a c findings f s g (returned stdout) e =
    ran _ c _ _ f (find_command-still env id c f) s g refl refl _ e
      (passed stdout _ _ refl refl refl)
ran_with-Guarded env id a c findings f s g (threw message) e =
    ran _ c _ _ f (find_command-still env id c f) s g refl refl _ e
      (broken message _ _ refl refl refl)

blocked_with-Guarded :
    (env : Env) (id : String) (a : Approval) (findings : List String) (p : Progress)
    → p.status ≡ stopped
    → is_empty findings ≡ false
    → Guarded env id a (blocked_with id findings p)
unfolding blocked_with
blocked_with-Guarded env id a findings p s n = held _ p refl refl refl s n

invoke_command-Guarded :
    (env : Env) (id : String) (a : Approval) (o : Option Command)
    → find_command env id ≡ o
    → (findings : List String) → findings ≡ collect (approval_checks id o a)
    → Guarded env id a (invoke_command env id a findings o)
unfolding invoke_command progress_of approval_checks
invoke_command-Guarded env id a none f findings h =
    blocked_with-Guarded env id a findings _ refl (rw h refl)
invoke_command-Guarded env id a (some c) f findings h =
    if-holds (Guarded env id a) (not (is_empty findings)) _ _
      (λ e. blocked_with-Guarded env id a findings _ refl (false_of_not _ e))
      (λ e.
        let clear : is_empty (collect (approval_checks id (some c) a)) ≡ true =
          subst (λ fs. is_empty fs ≡ true) h (not-false _ e) in
        if-holds (Guarded env id a) (c.recursive_surface && not a.allow_recursive) _ _
          (λ r.
            blocked_with-Guarded env id a
              (findings ++ "recursive_surface_command_requires_explicit_approval" ∷ []) _ refl
              (not_empty-append findings _ refl))
          (λ r.
            ran_with-Guarded env id a c findings f r (checks-IsApproved id (some c) a clear)
              (env.execute c.program c.args) refl))

-- A dry run is blocked with a finding, and one event that says so is its only effect; or it executes one
-- listed command that mutates nothing, once, between an event that it runs and an event of how it ended,
-- and then its approval is confirmed, names this command, is of the dry-run tier and excludes mutation,
-- and a recursive surface has an approval of its own.
pub invoke_dry_run-Guarded :
    (env : Env) (id : String) (a : Approval) → Guarded env id a (invoke_dry_run env id a)
unfolding invoke_dry_run verify_approval
invoke_dry_run-Guarded env id a = invoke_command-Guarded env id a (find_command env id) refl _ refl
