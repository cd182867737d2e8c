-- ===== src/Authority/Gates.antt =====
-- Where the approvals of a turn come from, and that they lock the actions on the outside.
use gpao_t.Prelude.{
  String, Bool, true, false, not, ◌&&◌, ◌||◌, ◌≡◌, refl, ap, ◌∙◌, List, [], ◌∷◌, ◌++◌, map, ◌==◌,
  if◌then◌else◌, filter, any, has, any-append, unique, has-unique, Bool-cases, inl, inr, is_empty,
  arith, none, some, ltb,
}
use mathlib.Core.List.{foldl}
use gpao_t.Admission.{Scored}
use gpao_t.Authority.{
  Patterns, RiskPattern, replace_all, has_affirmative_risk, has_referential_execution, release_gate,
  is_risky_weight, risky_patterns, gates_of, resolve_recovered_gate, is_high_risk, high_risk_gate,
  option_list, approvals_of, Decision, needs_approval, allowed, decision_for, build_decision,
}

has-high_risk :
    (gate : String) (admitted : List Scored)
    → has (map (λ s. high_risk_gate) (filter is_high_risk admitted)) gate
      ≡ (any is_high_risk admitted && high_risk_gate == gate)
has-high_risk gate [] = refl
has-high_risk gate (s ∷ admitted) = elim (Bool-cases (is_high_risk s)) [
  | inl e ↦
      rw e
        (absorb (high_risk_gate == gate) (any is_high_risk admitted) (has-high_risk gate admitted))
  | inr e ↦ rw e (has-high_risk gate admitted)
]
  where
    absorb : (p q : Bool) {r : Bool} → r ≡ (q && p) → (p || r) ≡ p
    absorb true q h = refl
    absorb false true h = h
    absorb false false h = h

-- The locks of a decision: nothing outside this machine is allowed, and what is allowed grows only where
-- no approval is needed.
abbrev pub Locked : Decision → Type 0
Locked d =
    (d.status ≡ (if is_empty d.required_approvals then allowed else needs_approval))
    × (has d.allowed_actions "external_action" ≡ false)
    × (has d.allowed_actions "durable_mutation" ≡ false)
    × (has d.allowed_actions "local_preview" ≡ true)
    × (has d.allowed_actions "local_read" ≡ is_empty d.required_approvals)
    × (has d.blocked_actions "external_action" ≡ not (is_empty d.required_approvals))

decision_for-Locked : (approvals : List String) → Locked (decision_for approvals)
decision_for-Locked [] = (refl, refl, refl, refl, refl, refl)
decision_for-Locked (a ∷ approvals) = (refl, refl, refl, refl, refl, refl)

decision_for-required :
    (approvals : List String) → (decision_for approvals).required_approvals ≡ approvals
decision_for-required [] = refl
decision_for-required (a ∷ approvals) = refl

-- The text with the matches of every negated pattern taken out.
abbrev pub without_negated : String → RiskPattern → String
without_negated text p = foldl (λ t replace. replace t) text p.replacements

-- Whether an execution is affirmed: a match without a negated prefix, or a Korean one that is not negated.
abbrev pub executes : Patterns → String → Bool
executes p text =
    any (λ prefix. not (p.negated_prefix prefix)) (p.execution_prefixes text)
    || (p.korean_execution text && not (p.korean_negated text))

-- Whether an admitted cell has weights with a risk above 0.65.
abbrev pub any_risky : List Scored → Bool
any_risky [] = false
any_risky (s ∷ admitted) =
    let rest = any_risky admitted in
    elim s.cell.weights [ none ↦ rest | some w ↦ ltb 650 w.risk || rest ]

-- Why a gate is needed.
abbrev pub needs_gate :
    Patterns → (text target_source active_target_id : String) → List Scored → (gate : String) → Bool
needs_gate p text target_source active_target_id admitted gate =
    ("public_release_or_distribution" == gate
      && (p.release.test (without_negated text p.release)
          || (target_source == "prior_flow_follow_up"
              && active_target_id == "release-file"
              && executes p text)))
    || ("data_deletion" == gate && p.deletion.test (without_negated text p.deletion))
    || ("secret_or_account_boundary" == gate && p.secret.test (without_negated text p.secret))
    || ("external_send" == gate && p.send.test (without_negated text p.send))
    || ("recurring_automation" == gate && p.automation.test (without_negated text p.automation))
    || ("high_risk_context_use" == gate && any_risky admitted)

any_risky-high_risk : (admitted : List Scored) → any is_high_risk admitted ≡ any_risky admitted
any_risky-high_risk [] = refl
any_risky-high_risk (s ∷ admitted) =
    elim s.cell.weights
      as (λ o.
        (is_risky_weight o || any is_high_risk admitted)
        ≡ elim o [ none ↦ any_risky admitted | some w ↦ ltb 650 w.risk || any_risky admitted ]) [
          | none ↦ any_risky-high_risk admitted
          | some w ↦ ap (λ b. ltb 650 w.risk || b) (any_risky-high_risk admitted)
        ]

replace_all-foldl :
    (replacements : List (String → String)) (text : String)
    → replace_all replacements text ≡ foldl (λ t replace. replace t) text replacements
replace_all-foldl [] text = refl
replace_all-foldl (replace ∷ replacements) text = replace_all-foldl replacements (replace text)

has-gates_of :
    (text gate : String) (patterns : List (RiskPattern × String))
    → has (gates_of text patterns) gate
      ≡ any (λ e. e.0.test (without_negated text e.0) && e.1 == gate) patterns
unfolding has_affirmative_risk
has-gates_of text gate [] = refl
has-gates_of text gate ((p, g) ∷ patterns) =
    let same = replace_all-foldl p.replacements text in
    rw⁻¹ same (elim (Bool-cases (p.test (replace_all p.replacements text))) [
      | inl e ↦ rw e (ap (λ b. g == gate || b) (has-gates_of text gate patterns))
      | inr e ↦ rw e (has-gates_of text gate patterns)
    ])

or_no : (b : Bool) → (b || false) ≡ b
or_no true = refl
or_no false = refl

has-recovered :
    (p : Patterns) (text source target gate : String)
    → has (option_list (resolve_recovered_gate p text source target)) gate ≡ (
        source == "prior_flow_follow_up"
        && target == "release-file"
        && executes p text
        && release_gate == gate)
unfolding resolve_recovered_gate has_referential_execution
has-recovered p text source target gate =
    go (source == "prior_flow_follow_up") (target == "release-file") (executes p text)
      (release_gate == gate)
  where
    go :
        (s t e g : Bool)
        → has
            (option_list (
              if not s
              then none
              else if not e
              then none
              else if t
              then some release_gate
              else none))
            gate
          ≡ (s && t && e && release_gate == gate)
    go true true true g = or_no (release_gate == gate)
    go true false true g = refl
    go true true false g = refl
    go true false false g = refl
    go false t e g = refl

rearranged :
    (a b c d e r s t x p q u v w h : Bool)
    → ((a && p) || ((b && q) || ((c && u) || ((d && v) || ((e && w) || false)))))
        || ((s && t && x && p) || (r && h))
      ≡ ((p && (a || (s && t && x))) || (q && b) || (u && c) || (v && d) || (w && e) || (h && r))
rearranged a b c d e r s t x p q u v w h = ground arith

has-approvals_of :
    (p : Patterns) (text source target : String) (admitted : List Scored) (gate : String)
    → has (approvals_of p text source target admitted) gate
      ≡ needs_gate p text source target admitted gate
unfolding approvals_of
has-approvals_of p text source target admitted gate =
    let gates = gates_of text (risky_patterns p) in
    let recovered = option_list (resolve_recovered_gate p text source target) in
    let risky = map (λ s. high_risk_gate) (filter is_high_risk admitted) in
    any-append (λ x. x == gate) gates (recovered ++ risky)
    ∙ ap (λ b. has gates gate || b)
        (any-append (λ x. x == gate) recovered risky
          ∙ ap (λ b. has recovered gate || b)
              (has-high_risk gate admitted
                ∙ ap (λ b. b && high_risk_gate == gate) (any_risky-high_risk admitted)))
    ∙ ap (λ b. b || (has recovered gate || (any_risky admitted && high_risk_gate == gate)))
        (has-gates_of text gate (risky_patterns p))
    ∙ ap
        (λ b.
          any (λ e. e.0.test (without_negated text e.0) && e.1 == gate) (risky_patterns p)
          || (b || (any_risky admitted && high_risk_gate == gate)))
        (has-recovered p text source target gate)
    ∙ rearranged (p.release.test (without_negated text p.release))
        (p.deletion.test (without_negated text p.deletion))
        (p.secret.test (without_negated text p.secret)) (p.send.test (without_negated text p.send))
        (p.automation.test (without_negated text p.automation)) (any_risky admitted)
        (source == "prior_flow_follow_up") (target == "release-file") (executes p text)
        ("public_release_or_distribution" == gate) ("data_deletion" == gate)
        ("secret_or_account_boundary" == gate) ("external_send" == gate)
        ("recurring_automation" == gate) ("high_risk_context_use" == gate)

-- The gate of a public release is needed exactly where the text affirms that risk, or a prior flow is
-- followed up whose target is the release file and the text affirms its execution; each of the gates of
-- deletion, secrets, sending and automation where the text affirms its risk; and the gate of high risk
-- where an admitted cell has a risk above 0.65. A risk is affirmed where its pattern matches the text
-- without the matches of its negated patterns. Where a gate is needed, the status says so and reading is
-- not allowed; an action outside is never allowed.
pub build_decision-Locked :
    (p : Patterns) (text target_source active_target_id : String) (admitted : List Scored)
    → Locked (build_decision p text target_source active_target_id admitted)
      × ((gate : String)
          → has
              (build_decision p text target_source active_target_id admitted).required_approvals
              gate
            ≡ needs_gate p text target_source active_target_id admitted gate)
unfolding build_decision
build_decision-Locked p text source target admitted = (
  decision_for-Locked (unique (approvals_of p text source target admitted)),
  λ gate.
      ap (λ required. has required gate)
        (decision_for-required (unique (approvals_of p text source target admitted)))
      ∙ has-unique (approvals_of p text source target admitted) gate
      ∙ has-approvals_of p text source target admitted gate,
)
