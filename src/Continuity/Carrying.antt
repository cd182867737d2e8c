-- ===== src/Continuity/Carrying.antt =====
-- Which referent a request carries over.
use gpao_t.Prelude.{
  ℕ, ◌≤◌, ◌<◌, String, Bool, true, false, ◌||◌, ◌≡◌, refl, sym, subst, Option, none, some, List, [],
  ◌∷◌, map, ◌==◌, if◌then◌else◌, filter, leb, sort_desc, sort_desc-greatest, All, Bool-cases, inl,
  inr, arith, sort_desc-All, All-of_sort_desc,
}
use gpao_t.Continuity.{Env, Referent, has_referent_signal, extract_patterns}
use gpao_t.Continuity.Handing.{
  Handoff, current_request_override, not_needed, auto_carry, clarify_short, ask_target, Rated,
  rated_key, first_referent, score_referent, select_best, handoff_for, classify_decision,
  build_handoff, has_new_topic,
}

empty_of_none : (xs : List Rated) → All (λ item. ⊥) xs → xs ≡ []
empty_of_none [] h = refl
empty_of_none (x ∷ xs) (h, hs) = absurd h

module _ (env : Env) (text : String) where
  -- The score by which a follow-up's referents are compared.
  abbrev pub rating : Referent → ℕ
  rating r = score_referent env (env.lower text) r true

  score_referent-bounded :
      (r : Referent) (follow_up : Bool) → score_referent env text r follow_up ≤ 980
  unfolding score_referent
  score_referent-bounded r follow_up = ground arith

  -- The best of the referents: it scores 0.45 at least and no other scores more. Without one, none does.
  pub data Selected (referents : List Referent) : Option Referent → Type 0 where
    best :
        (r : Referent)
        → 450 ≤ rating r
        → All (λ other. rating other ≤ rating r) referents
        → Selected referents (some r)
    nothing : All (λ other. rating other < 450) referents → Selected referents none

  abbrev rate : Referent → Rated
  rate r = (r, rating r)

  abbrev high : Rated → Bool
  high item = leb 450 item.1

  -- Every referent is rated within a bound where those that pass the filter are.
  filtered-bounded :
      (bound : ℕ) (referents : List Referent)
      → 450 ≤ bound
      → All (λ item. item.1 ≤ bound) (filter high (map rate referents))
      → All (λ other. rating other ≤ bound) referents
  filtered-bounded bound [] h k = tt
  filtered-bounded bound (r ∷ referents) h k = elim (Bool-cases (leb 450 (rating r))) [
    | inl e ↦ let (l, ls) = rw e at k in (l, filtered-bounded bound referents h ls)
    | inr e ↦ (ground (arith, e, h), filtered-bounded bound referents h (rw e at k))
  ]

  filtered-none :
      (referents : List Referent)
      → filter high (map rate referents) ≡ []
      → All (λ other. rating other < 450) referents
  filtered-none [] h = tt
  filtered-none (r ∷ referents) h = elim (Bool-cases (leb 450 (rating r))) [
    | inl e ↦ cc (rw e at h)
    | inr e ↦ (ground (arith, e), filtered-none referents (rw e at h))
  ]

  -- What is true of each rated referent that passes: its rating is its own, and passes.
  filtered-rated :
      (referents : List Referent)
      → All (λ item. (item.1 ≡ rating item.0) × (450 ≤ item.1)) (filter high (map rate referents))
  filtered-rated [] = tt
  filtered-rated (r ∷ referents) = elim (Bool-cases (leb 450 (rating r))) [
    | inl e ↦ rw e ((refl, ground (arith, e)), filtered-rated referents)
    | inr e ↦ rw e (filtered-rated referents)
  ]

  first-Selected :
      (referents : List Referent) (sorted : List Rated)
      → sort_desc rated_key (filter high (map rate referents)) ≡ sorted
      → Selected referents (first_referent sorted)
  first-Selected referents [] e = nothing (
      filtered-none referents (
        empty_of_none _ (
          All-of_sort_desc rated_key (λ item. ⊥) (filter high (map rate referents))
            (subst (All (λ item. ⊥)) (sym e) tt))))
  first-Selected referents ((r, score) ∷ rest) e =
      let rated : All (λ item. (item.1 ≡ rating item.0) × (450 ≤ item.1)) ((r, score) ∷ rest) =
        subst (All _) e (sort_desc-All rated_key _ _ (filtered-rated referents)) in
      let greatest =
        sort_desc-greatest rated_key (filter high (map rate referents)) rest (r, score) e in
      let ((own, enough), _) = rated in
      best r (subst (λ n. 450 ≤ n) own enough) (
        subst (λ n. All (λ other. rating other ≤ n) referents) own
          (filtered-bounded score referents enough greatest))

  select_best-Selected :
      (referents : List Referent) → Selected referents (select_best env text referents true)
  unfolding select_best
  select_best-Selected referents = first-Selected referents _ refl

  -- The five ways in which a request takes up what came before.
  pub data Carrying (follow_up overrides : Bool) (referents : List Referent) (h : Handoff)
      : Type 0 where
    overriding :
        overrides ≡ true
        → h.decision ≡ current_request_override
        → h.active_referent ≡ none
        → Carrying follow_up overrides referents h
    unneeded :
        overrides ≡ false
        → follow_up ≡ false
        → h.decision ≡ not_needed
        → h.active_referent ≡ none
        → Carrying follow_up overrides referents h
    unclear :
        overrides ≡ false
        → follow_up ≡ true
        → h.decision ≡ ask_target
        → h.active_referent ≡ none
        → Selected referents none
        → Carrying follow_up overrides referents h
    carried :
        (r : Referent)
        → overrides ≡ false
        → follow_up ≡ true
        → h.decision ≡ auto_carry
        → h.active_referent ≡ some r
        → Selected referents (some r)
        → h.confidence ≡ rating r
        → 750 ≤ h.confidence
        → Carrying follow_up overrides referents h
    clarifying :
        (r : Referent)
        → overrides ≡ false
        → follow_up ≡ true
        → h.decision ≡ clarify_short
        → h.active_referent ≡ some r
        → Selected referents (some r)
        → h.confidence ≡ rating r
        → h.confidence < 750
        → Carrying follow_up overrides referents h

  module _ (again : env.lower (env.lower text) ≡ env.lower text) where
    same_rating : (r : Referent) → score_referent env text r true ≡ rating r
    unfolding score_referent
    same_rating r = rw again refl

    carried-Carrying :
        (new_session : Bool) (referents : List Referent) (o : Option Referent)
        → Selected referents o
        → Carrying true false referents (handoff_for env text new_session true false o)
    unfolding handoff_for classify_decision
    carried-Carrying new_session referents none s = unclear refl refl refl refl s
    carried-Carrying new_session referents (some r) (best r' enough most) =
        let c = score_referent env text r true in
        let fits : 450 ≤ c = subst (λ n. 450 ≤ n) (sym (same_rating r)) enough in
        elim (Bool-cases (leb 750 c)) [
          | inl e ↦
              carried r refl refl (rw e refl) refl (best r enough most) (same_rating r)
                (ground (arith, e))
          | inr e ↦
              let low : leb 450 c ≡ true = ground (arith, fits) in
              clarifying r refl refl (rw (e, low) refl) refl (best r enough most) (same_rating r)
                (ground (arith, e))
        ]

    handoff_for-Carrying :
        (new_session follow_up overrides : Bool) (referents : List Referent)
        → Carrying follow_up overrides referents (
            handoff_for env text new_session follow_up overrides
              (if overrides then none else select_best env text referents follow_up))
    unfolding handoff_for classify_decision select_best
    handoff_for-Carrying new_session follow_up true referents = overriding refl refl refl
    handoff_for-Carrying new_session false false referents = unneeded refl refl refl refl
    handoff_for-Carrying new_session true false referents =
        carried-Carrying new_session referents _ (select_best-Selected referents)

    -- With a text that is lowered once where it is lowered twice: a request that opens a new topic, and
    -- one that does not follow up, carry nothing over. A follow-up takes the referent that rates
    -- highest, at 0.75 and more without asking, from 0.45 on after a short question; where none rates
    -- 0.45, it asks for the target.
    pub build_handoff-Carrying :
        (kind : String) (new_session : Bool) (referents : List Referent)
        → Carrying
            (kind == "follow_up" || has_referent_signal text)
            (has_new_topic text (extract_patterns text))
            referents
            (build_handoff env text kind new_session referents)
    unfolding build_handoff
    build_handoff-Carrying kind new_session referents =
        handoff_for-Carrying new_session (kind == "follow_up" || has_referent_signal text)
          (has_new_topic text (extract_patterns text)) referents
