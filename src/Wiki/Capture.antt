-- ===== src/Wiki/Capture.antt =====
-- What a capture leaves, and that the cell it captures is never answered from.
use gpao_t.Prelude.{
  String, true, false, ◌&&◌, ◌≡◌, ◌≢◌, refl, some, List, [], ◌∷◌, ◌++◌, truthy, Outcome, returned,
  threw, Bool-cases, inl, inr, trim, is_space, ap,
}
use gpao_t.Cell.{Cell}
use gpao_t.Policy.{RequestPolicy, classify_authority_use, normalize_uses, all_use_blocked}
use gpao_t.Admission.{Overlay, score_cell, anchor}
use gpao_t.Admission.Roles.{score_cell-anchor}
use gpao_t.Wiki.{
  Env, Entry, Files, Wiki, wiki_or, cells_or_empty, initialize_wiki, capture_entry, new_entry,
  cell_of_entry,
}
use gpao_t.Wiki.Scoring.{annotate}

-- The two outcomes of a capture: nothing is written without a title or a body, and otherwise the wiki
-- has one entry more and the file of cells one cell more, which is the entry's.
pub data Captured (env : Env) (title body : String) (files : Files)
    : Outcome (Entry × Cell) × Files → Type 0 where
  refused :
      (message : String)
      → (truthy title && truthy body) ≡ false
      → Captured env title body files (threw message, files)
  captured :
      (entry : Entry) (after : Files)
      → (truthy title && truthy body) ≡ true
      → entry.title ≡ title
      → entry.body ≡ body
      → entry.status ≡ "candidate"
      → (wiki : Wiki) → after.wiki ≡ some wiki
      → wiki.entries ≡ (wiki_or env.now files.wiki).entries ++ entry ∷ []
      → after.cells ≡ some (cells_or_empty files.cells ++ cell_of_entry env entry ∷ [])
      → Captured env title body files (returned (entry, cell_of_entry env entry), after)

-- A capture without a title or a body throws and writes nothing; any other adds the entry to the wiki, and
-- its cell to the file of cells, whether or not the files were there.
pub capture_entry-Captured :
    (env : Env) (title body source : String) (tags : List String) (files : Files)
    → Captured env title body files (capture_entry env title body source tags files)
unfolding capture_entry initialize_wiki new_entry
capture_entry-Captured env title body source tags files = elim (Bool-cases (truthy title)) [
  | inl e ↦ elim (Bool-cases (truthy body)) [
    | inl f ↦ rw (e, f) (captured _ _ (rw (e, f) refl) refl refl refl _ refl refl refl)
    | inr f ↦ rw (e, f) (refused _ (rw (e, f) refl))
  ]
  | inr e ↦ rw e (refused _ (rw e refl))
]

captured_denied :
    (env : Env) (entry : Entry)
    → (classify_authority_use (cell_of_entry env entry)).answer_anchor_allowed ≡ false
unfolding classify_authority_use cell_of_entry normalize_uses all_use_blocked trim is_space
captured_denied env entry = refl

-- What the retrieval adds to a cell leaves what its authority allows.
pub annotate-authority :
    (policy : RequestPolicy) (request kind : String) (c : Cell)
    → classify_authority_use (annotate policy request kind c) ≡ classify_authority_use c
unfolding annotate classify_authority_use
annotate-authority policy request kind c = refl

-- No turn answers from a captured cell, for whatever request and target it was retrieved.
pub score_cell-captured :
    (env : Env) (entry : Entry) (policy : RequestPolicy) (request kind : String) (o : Overlay)
    → (score_cell kind o (annotate policy request kind (cell_of_entry env entry))).role ≢ anchor
score_cell-captured env entry policy request kind o h =
    let c = cell_of_entry env entry in
    let (allowed, _) = score_cell-anchor kind o (annotate policy request kind c) h in
    cc (
      captured_denied env entry,
      allowed,
      ap (λ u. u.answer_anchor_allowed) (annotate-authority policy request kind c),
    )
