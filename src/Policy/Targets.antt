-- ===== src/Policy/Targets.antt =====
-- What a request's target owes to the turns before it.
use gpao_t.Prelude.{
  ◌≡◌, refl, ap, inl, inr, String, Bool, true, false, if◌then◌else◌, ◌||◌, Option, none, some, ◌==◌,
  is_text, Bool-cases, eq_iff,
}
use gpao_t.Policy.{
  release_target, Signals, current_target, follow_up_target, RequestPolicy, classify_request_target,
}

current_target-carry :
    (s : Signals) (kind : String) (prior : Option String)
    → (current_target s kind prior).carry_prior_target ≡ false
unfolding current_target
current_target-carry s kind prior = elim (Bool-cases (kind == "artifact_request")) [
  | inl e ↦ rw e refl
  | inr e ↦ rw e refl
]

follow_up_target-carry :
    (b : Bool) (s : Signals) (kind : String) (prior : Option String)
    → (follow_up_target b s kind prior).carry_prior_target ≡ true
    → prior ≡ some (follow_up_target b s kind prior).active_target_id
unfolding follow_up_target
follow_up_target-carry true s kind (some t) h = refl
follow_up_target-carry true s kind none h = cc (current_target-carry s kind none, h)
follow_up_target-carry false s kind prior h = cc (current_target-carry s kind prior, h)

is_text-some : (o : Option String) (s : String) → is_text o s ≡ true → o ≡ some s
is_text-some none s h = cc
is_text-some (some t) s h = ap some ((eq_iff t s).0 h)

chosen-carry :
    (b : Bool) (x y : RequestPolicy) (prior : Option String)
    → (x.carry_prior_target ≡ true → prior ≡ some x.active_target_id)
    → (y.carry_prior_target ≡ true → prior ≡ some y.active_target_id)
    → (if b then x else y).carry_prior_target ≡ true
    → prior ≡ some (if b then x else y).active_target_id
chosen-carry true x y prior f g h = f h
chosen-carry false x y prior f g h = g h

-- A request says that it carries the prior target only where the prior flow has that target, and the
-- request's active target is then that one.
pub classify_request_target-carry :
    (s : Signals) (kind : String) (prior : Option String)
    → (classify_request_target s kind prior).carry_prior_target ≡ true
    → prior ≡ some (classify_request_target s kind prior).active_target_id
unfolding classify_request_target
classify_request_target-carry s kind prior h =
    chosen-carry s.release _ _ prior (is_text-some prior release_target)
      (follow_up_target-carry (kind == "follow_up" || s.follow_up) s kind prior) h
