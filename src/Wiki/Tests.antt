-- ===== src/Wiki/Tests.antt =====
-- A captured entry, and the requests that retrieve its cell.
use gpao_t.Memory.Words.{split_from}
use gpao_t.Prelude.{trim, true, false, ◌≡◌, refl, none, [], ◌∷◌, ◌==◌, any, returned}
use gpao_t.Policy.{Signals, RequestPolicy, classify_request_target}
use gpao_t.Wiki.{Env, Entry, Files, capture_entry, new_entry, cell_of_entry}
use gpao_t.Wiki.Scoring.{retrieve, resolve_mesh, tokens}
use gpao_t.Wiki.Capture.{Captured, capture_entry-Captured}
use gpao_t.Wiki.Retrieval.{IsRanked, retrieve-IsRanked, resolve_mesh-Captured}

abbrev env : Env
env = record {
  now = "2026-06-01T09:00:00.000Z";
  millis = "1780304400000";
  lower = λ s. s;
  release_words = λ s. false;
}

abbrev files : Files
files = record { wiki = none; cells = none }

abbrev signals : Signals
signals = record { release = false; follow_up = false; package_word = false; work_surface = false }

abbrev entry : Entry
entry = new_entry env "tone" "keep answers short" "user" []

abbrev policy : RequestPolicy
policy = classify_request_target signals "general_request" none

request_tokens : tokens "(keep) it, short." ≡ "keep" ∷ "it" ∷ "short" ∷ []
unfolding tokens split_from trim
request_tokens = refl

capture_entry-Captured_example :
    Captured env "tone" "" files (capture_entry env "tone" "" "user" [] files)
capture_entry-Captured_example = capture_entry-Captured env "tone" "" "user" [] files

retrieve-IsRanked_example :
    IsRanked policy "keep it" "general_request"
      (cell_of_entry env entry ∷ [])
      (retrieve policy "keep it" "general_request" (cell_of_entry env entry ∷ []))
retrieve-IsRanked_example =
    retrieve-IsRanked policy "keep it" "general_request" (cell_of_entry env entry ∷ [])

abbrev after : Files
after = (capture_entry env "tone" "keep answers short" "user" [] files).1

Captured-tone :
    Captured env "tone" "keep answers short" files
      (returned (entry, cell_of_entry env entry), after)
unfolding capture_entry
Captured-tone = capture_entry-Captured env "tone" "keep answers short" "user" [] files

resolve_mesh-Captured_example :
    any
      (λ c. c.id == (cell_of_entry env entry).id)
      (resolve_mesh "later" signals "hello" "general_request" "" none after).0.retrieved
    ≡ true
resolve_mesh-Captured_example =
    resolve_mesh-Captured env "tone" "keep answers short" files after entry
      (cell_of_entry env entry) "later" signals "hello" "general_request" "" none Captured-tone refl
