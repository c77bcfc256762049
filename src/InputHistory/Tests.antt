-- ===== src/InputHistory/Tests.antt =====
-- The history of the input at concrete texts.
use codeng.Prelude.{ℕ, ◌⊎◌, ◌≢◌, ◌≡◌, refl, arith, true, false, none, some, List, [], ◌∷◌}
use codeng.Prelude.Strings.{codes}
use codeng.InputHistory.State.{InputHistory, Stored, items, rstrip_newlines, search_backward}
use codeng.InputHistory.Calls.{
  Call, enter, type_text, previous, search, next, stop_search, save_now,
}
use codeng.InputHistory.Walk.{
  and_then, buffered, previous_times, next_times, next_times-previous_times,
}
use codeng.InputHistory.Search.{Searched, search_backward-Searched}

abbrev calls : List Call
calls =
    enter (codes "make")
    ∷ enter (codes "test")
    ∷ enter (codes "test")
    ∷ enter (codes "push")
    ∷ previous (codes "draft")
    ∷ type_text (codes "pull")
    ∷ previous []
    ∷ search (codes "u")
    ∷ next
    ∷ stop_search
    ∷ next
    ∷ save_now
    ∷ []

-- a file with a line that is there twice, one that is empty, and a number
abbrev file : Stored
file = items (some (codes "ls") ∷ some (codes "ls") ∷ some [] ∷ none ∷ [])

abbrev sent : InputHistory
sent = record {
  entries = codes "make" ∷ codes "test" ∷ codes "push" ∷ [];
  max_entries = none;
  persist_history = false;
  index = none;
  current_buffer = none;
  search_query = none;
  search_index = none;
  edits = [];
  dirty = true;
}

next_times-previous_times_example :
    and_then (previous_times 2 (codes "draft") sent) (next_times 2)
    ≡ some (some (rstrip_newlines (codes "draft")), buffered (codes "draft") sent)
next_times-previous_times_example =
    next_times-previous_times 1 (codes "draft") sent refl (omega arith)

-- a search for "s" that stands at "push"
abbrev searching : InputHistory
searching = record sent { search_query = some (codes "s"); search_index = some 2 }

search_backward-Searched_example :
    ((i : ℕ)
      → searching.search_index ≡ some i
      → searching.search_query ≡ some (codes "s")
      → Searched (codes "s") searching i (search_backward (codes "s") searching))
    × ((searching.search_index ≡ none) ⊎ (searching.search_query ≢ some (codes "s"))
        → Searched (codes "s") searching 3 (search_backward (codes "s") searching))
search_backward-Searched_example =
    search_backward-Searched (codes "s") searching (omega arith) refl refl
