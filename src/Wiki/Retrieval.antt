-- ===== src/Wiki/Retrieval.antt =====
-- What the retrieval answers with: its order, its members, and a captured cell among them.
use gpao_t.Prelude.{
  ℕ, AllPairs, ◌+◌, ◌-◌, ◌≤◌, String, Bool, true, false, ◌&&◌, ◌≡◌, refl, ◌∙◌, Option, some, List,
  [], ◌∷◌, ◌++◌, map, ◌==◌, filter, any, has, ltb, length, sort_desc-perm, sort_desc-IsDescending,
  sort_desc-of_key, IsDescending, of_key, arith, Bool-cases, inl, inr, any-sort_desc, length-append,
  zero, suc, drop, returned, eq_refl,
}
use mathlib.Core.List.{Permᴰ}
use gpao_t.Cell.{Cell}
use gpao_t.Policy.{RequestPolicy, Signals, classify_candidate_use}
use gpao_t.Storage.{slice_last}
use gpao_t.Wiki.Capture.{Captured, captured}
use gpao_t.Wiki.{Env, Entry, Files, cell_of_entry, cells_or_empty, read_candidates}
use gpao_t.Wiki.Scoring.{
  retrieve, annotate, is_scored, mesh_key, resolve_mesh, score_candidate, token_points, points,
  haystack, tokens, is_stale_role,
}
use gpao_t.Wiki.Rating.{IsRated, annotate-id, map-IsRated}

-- A retrieval, the highest score first: the cells are those that scored above 0, each as often as it was
-- stored, and those of one score stay in the order of the file.
pub record IsRanked (policy : RequestPolicy) (request kind : String) (candidates : List Cell)
    (retrieved : List Cell) : Type 0 where
  pub rated : List Cell
  pub scores : AllPairs (IsRated policy request kind) candidates rated
  pub same : Permᴰ retrieved (filter is_scored rated)
  pub descending : IsDescending mesh_key retrieved
  pub stable : (n : ℕ) → of_key mesh_key n retrieved ≡ of_key mesh_key n (filter is_scored rated)

-- A retrieval holds exactly the candidates that score above 0, the highest score first, and those of one
-- score in the order of the file. A candidate scores 2 for each word of the request that it holds, 4 where it
-- is the active target's and may be an anchor, 1 where it is valid for the request's kind and a half where
-- it is a candidate, less 1 where it is stale support. It is above 0 where a word is held, it is such a
-- target's, or it is valid for the kind or a candidate, both where it is stale support.
pub retrieve-IsRanked :
    (policy : RequestPolicy) (request kind : String) (candidates : List Cell)
    → IsRanked policy request kind candidates (retrieve policy request kind candidates)
unfolding retrieve
retrieve-IsRanked policy request kind candidates =
    let rated = map (annotate policy request kind) candidates in
    record {
      rated = rated;
      scores = map-IsRated policy request kind candidates;
      same = sort_desc-perm mesh_key (filter is_scored rated);
      descending = sort_desc-IsDescending mesh_key (filter is_scored rated);
      stable = λ n. sort_desc-of_key mesh_key n (filter is_scored rated);
    }

any-filter-last :
    (q p : Cell → Bool) (f : Cell → Cell) (cells : List Cell) (c : Cell)
    → p (f c) ≡ true
    → q (f c) ≡ true
    → any q (filter p (map f (cells ++ c ∷ []))) ≡ true
any-filter-last q p f [] c h k = rw h (rw k refl)
any-filter-last q p f (d ∷ cells) c h k = elim (Bool-cases (p (f d))) [
  | inl e ↦ rw e (ground (arith, any-filter-last q p f cells c h k))
  | inr e ↦ rw e (any-filter-last q p f cells c h k)
]

drop-last :
    (k : ℕ) (cells : List Cell) (c : Cell)
    → k ≤ length cells
    → drop k (cells ++ c ∷ []) ≡ drop k cells ++ c ∷ []
drop-last zero cells c h = refl
drop-last (suc k) [] c h = absurd (omega (arith, h))
drop-last (suc k) (d ∷ cells) c h = drop-last k cells c (omega (arith, h))

-- The last of the stored cells is among the last hundred.
slice_last-last :
    (cells : List Cell) (c : Cell)
    → slice_last 100 (cells ++ c ∷ []) ≡ drop (length cells + 1 - 100) cells ++ c ∷ []
unfolding slice_last
slice_last-last cells c =
    let count : length (cells ++ c ∷ []) ≡ length cells + 1 = length-append cells (c ∷ []) in
    rw count (drop-last (length cells + 1 - 100) cells c (omega arith))

-- The kinds of request for which a captured cell is valid.
abbrev pub captured_kinds : List String
captured_kinds = "follow_up" ∷ "artifact_request" ∷ "general_request" ∷ []

scored_enough : (a b : ℕ) (stale : Bool) → ltb 0 (a + b + 1000 + 500 - points stale 1000) ≡ true
scored_enough a b true = ground arith
scored_enough a b false = ground arith

captured_score :
    (env : Env) (entry : Entry) (policy : RequestPolicy) (request kind : String)
    → has captured_kinds kind ≡ true
    → is_scored (annotate policy request kind (cell_of_entry env entry)) ≡ true
unfolding annotate score_candidate cell_of_entry
captured_score env entry policy request kind h =
    let c = cell_of_entry env entry in
    let u = classify_candidate_use c policy kind in
    rw h (
      scored_enough (token_points (haystack c) (tokens request))
        (points (c.anchor == policy.active_target_id && u.answer_anchor_eligible) 4000)
        (is_stale_role u.admission_role))

retrieve-last :
    (env : Env) (entry : Entry) (policy : RequestPolicy) (request kind : String) (cells : List Cell)
    → has captured_kinds kind ≡ true
    → any
        (λ c. c.id == (cell_of_entry env entry).id)
        (retrieve policy request kind (cells ++ cell_of_entry env entry ∷ []))
      ≡ true
unfolding retrieve
retrieve-last env entry policy request kind cells h =
    let cell = cell_of_entry env entry in
    let found : Cell → Bool = λ c. c.id == cell.id in
    any-sort_desc mesh_key found _
    ∙ any-filter-last found is_scored (annotate policy request kind) cells cell
        (captured_score env entry policy request kind h)
        (rw (annotate-id policy request kind cell) (eq_refl cell.id))

resolve_mesh-last :
    (env : Env) (entry : Entry) (now : String) (signals : Signals)
    (request kind active_target_id : String) (prior : Option (Option String)) (files : Files)
    (cells : List Cell)
    → files.cells ≡ some (cells ++ cell_of_entry env entry ∷ [])
    → has captured_kinds kind ≡ true
    → any
        (λ c. c.id == (cell_of_entry env entry).id)
        (resolve_mesh now signals request kind active_target_id prior files).0.retrieved
      ≡ true
unfolding resolve_mesh read_candidates
resolve_mesh-last env entry now signals request kind active_target_id prior files cells e h = rw e (
    rw (slice_last-last cells (cell_of_entry env entry))
      (retrieve-last env entry _ request kind (drop (length cells + 1 - 100) cells) h))

-- A captured cell is retrieved by the next request that follows up, asks for an artifact, or is general,
-- whatever its text, its target and the cells that were stored before.
pub resolve_mesh-Captured :
    (env : Env) (title body : String) (files after : Files) (entry : Entry) (cell : Cell)
    (now : String) (signals : Signals) (request kind active_target_id : String)
    (prior : Option (Option String))
    → Captured env title body files (returned (entry, cell), after)
    → has captured_kinds kind ≡ true
    → any
        (λ c. c.id == cell.id)
        (resolve_mesh now signals request kind active_target_id prior after).0.retrieved
      ≡ true
resolve_mesh-Captured env title body files after entry cell now signals request kind target prior
      (captured entry' after' e t b s w n m c) h =
    resolve_mesh-last env entry now signals request kind target prior after
      (cells_or_empty files.cells) c h
