-- ===== src/Wiki.antt =====
-- src/core/memory-wiki.js: the memory wiki, the cell that is captured with an entry, and the retrieval of
-- cells for a request. The test of the release words, an expression that ignores case, is an argument.
pub mod Scoring
pub mod Capture
pub mod Rating
pub mod Retrieval
mod Tests
use gpao_t.Prelude.{
  ℕ, zero, suc, ◌+◌, ◌-◌, String, Bool, true, false, not, ◌&&◌, ◌||◌, Option, none, some, List, [],
  ◌∷◌, ◌++◌, map, ◌==◌, if◌then◌else◌, or_text, append, filter, truthy, is_text, Outcome, returned,
  threw, has, includes, trim, take_chars, length, join, or_null, ltb, sort_desc, is_empty,
}
use gpao_t.Cell.{Cell, Weights, Radius, Authority, empty_trace, empty_replay}
use gpao_t.Memory.Words.{slug_from, split_from}
use gpao_t.Policy.{
  Signals, RequestPolicy, classify_request_target, CandidateUse, classify_candidate_use, Role,
  blocked, stale_supporting, answer_anchor, supporting_context, candidate_evidence,
}
use gpao_t.Storage.{slice_last}

-- The clock, the engine's `toLowerCase`, and the test of `/배포파일|GPAO-T Operating Package|…/i`.
pub record Env : Type 0 where
  pub now : String
  pub millis : String
  pub lower : String → String
  pub release_words : String → Bool

pub record Entry : Type 0 where
  pub id : String
  pub title : String
  pub body : String
  pub tags : List String
  pub source : String
  pub status : String
  pub created_at : String
  pub updated_at : String

pub record Wiki : Type 0 where
  pub status : String
  pub created_at : String
  pub updated_at : String
  pub entries : List Entry

-- The two files under the runtime root; a missing one is none.
pub record Files : Type 0 where
  pub wiki : Option Wiki
  pub cells : Option (List Cell)

abbrev pub empty_wiki : (now : String) → Wiki
empty_wiki now = record {
  status = "local_candidate_store";
  created_at = now;
  updated_at = now;
  entries = [];
}

abbrev pub wiki_or : (now : String) → Option Wiki → Wiki
wiki_or now none = empty_wiki now
wiki_or now (some wiki) = wiki

abbrev pub cells_or_empty : Option (List Cell) → List Cell
cells_or_empty none = []
cells_or_empty (some cells) = cells

-- `initializeMemoryWiki`: the wiki that is read, and the files.
unfoldable pub initialize_wiki : (now : String) → Files → Wiki × Files
initialize_wiki now files = (
  wiki_or now files.wiki,
  record { wiki = some (wiki_or now files.wiki); cells = some (cells_or_empty files.cells) },
)

-- `readMemoryWiki`
unfoldable pub read_wiki : (now : String) → Files → Wiki × Files
unfolding initialize_wiki
read_wiki now files = elim files.wiki [ none ↦ initialize_wiki now files | some w ↦ (w, files) ]

-- `writeMemoryWiki` and `appendTCellCandidate`
abbrev pub write_wiki : Wiki → Files → Files
write_wiki wiki files = record files { wiki = some wiki }

abbrev pub append_cell : Cell → Files → Files
append_cell cell files = record files { cells = some (cells_or_empty files.cells ++ cell ∷ []) }

-- `slug`
unfoldable pub wiki_slug : Env → String → String
wiki_slug env value = or_text (take_chars 64 (slug_from false false (env.lower value))) "entry"

abbrev pub entry_text : Entry → String
entry_text entry = append entry.title (append " " entry.body)

-- `inferOperatingPrinciple`
unfoldable pub infer_operating_principle : Env → Entry → String
infer_operating_principle env entry =
    if env.release_words (entry_text entry)
    then "When the user says 배포파일 in a GPAO-T packaging flow, prefer GPAO-T Operating Package over older BEAI archive meanings."
    else append "Use memory entry '" (
        append entry.title
          "' as a candidate operating principle only after Context Mesh admission.")

-- `inferAnchor`
unfoldable pub infer_anchor : Env → Entry → String
unfolding wiki_slug
infer_anchor env entry =
    if env.release_words (entry_text entry) then "release-file" else wiki_slug env entry.title

-- `buildTCellCandidateFromMemory`
unfoldable pub cell_of_entry : Env → Entry → Cell
unfolding infer_operating_principle infer_anchor
cell_of_entry env entry = record {
  id = append "tcell.candidate." entry.id;
  pi = infer_operating_principle env entry;
  x = entry.title ∷ entry.body ∷ [];
  anchor = infer_anchor env entry;
  radius = record {
    scope = "project";
    valid_for = "follow_up" ∷ "artifact_request" ∷ "general_request" ∷ [];
    invalid_for = "unrelated_topic" ∷ [];
  };
  source_refs = entry.id ∷ [];
  contradicts = [];
  weights =
      some (record { relevance = 500; confidence = 580; freshness = 900; risk = 250; cost = 100 });
  lifecycle = "candidate";
  authority = record {
    allowed_use =
        "retrieve" ∷ "review" ∷ "candidate_evidence" ∷ "supporting_context" ∷ "explain" ∷ [];
    blocked_use =
        "answer_anchor" ∷ "automatic_answer_anchor" ∷ "durable_promotion" ∷ "external_action"
        ∷ "live_rule_mutation" ∷ [];
  };
  replay = empty_replay;
  trace = record empty_trace { created_from = entry.id };
  admission_role = "";
  downgrade_reason = "";
  answer_anchor_eligible = none;
  mesh_score = 0;
}

unfoldable pub new_entry : Env → (title body source : String) → List String → Entry
unfolding wiki_slug
new_entry env title body source tags = record {
  id = append "mem." (append (wiki_slug env title) (append "." env.millis));
  title = title;
  body = body;
  tags = tags;
  source = source;
  status = "candidate";
  created_at = env.now;
  updated_at = env.now;
}

-- `captureMemoryEntry`: what it returns or throws, and the files it leaves.
unfoldable pub capture_entry :
    Env
    → (title body source : String) → (tags : List String) → Files
    → Outcome (Entry × Cell) × Files
unfolding initialize_wiki new_entry cell_of_entry
capture_entry env title body source tags files =
    if not (truthy title) || not (truthy body)
    then (threw "captureMemoryEntry requires title and body", files)
    else (let entry = new_entry env title body source tags in
        let (wiki, ready) = initialize_wiki env.now files in
        let next : Wiki = record wiki {
          updated_at = env.now;
          entries = wiki.entries ++ entry ∷ [];
        } in
        let cell = cell_of_entry env entry in
        (returned (entry, cell), append_cell cell (write_wiki next ready)))

-- `readTCellCandidates`
unfoldable pub read_candidates : (now : String) → (limit : ℕ) → Files → List Cell × Files
unfolding initialize_wiki slice_last
read_candidates now limit files = elim files.cells [
  | none ↦ ([], (initialize_wiki now files).1)
  | some cells ↦ (slice_last limit cells, files)
]
