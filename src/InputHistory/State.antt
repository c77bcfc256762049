-- ===== src/InputHistory/State.antt =====
-- The state and the methods of HistoryManager. An `Answer` of `none` stands for an IndexError. The task
-- that saves from time to time is not modelled.
use codeng.Prelude.{
  ℕ, zero, suc, ◌+◌, ◌-◌, Bool, true, false, ◌&&◌, ◌||◌, Option, none, some, List, [], ◌∷◌, ◌++◌,
  ◌==◌, leb, if◌then◌else◌, length, get_elem?, drop, is_empty, last?,
}
use codeng.Prelude.Dict
use codeng.Prelude.Dict.{Dict}
use codeng.Prelude.Texts.{text_eq}
use codeng.Prelude.Strings.{contains}
use codeng.Workflow.Data.{Text}

pub record InputHistory : Type 0 where
  pub entries : List Text
  pub max_entries : Option ℕ
  pub persist_history : Bool
  pub index : Option ℕ
  pub current_buffer : Option Text
  pub search_query : Option Text
  pub search_index : Option ℕ
  pub edits : Dict Text
  pub dirty : Bool

-- `rstrip("\n")`
unfoldable pub rstrip_newlines : Text → Text
rstrip_newlines [] = []
rstrip_newlines (c ∷ cs) =
    let rest = rstrip_newlines cs in if is_empty rest && c == 10 then [] else c ∷ rest

-- `entries[overflow:]`, where there are more than the limit
unfoldable pub trimmed : Option ℕ → List Text → List Text
trimmed none entries = entries
trimmed (some limit) entries = drop (length entries - limit) entries

unfoldable pub trim_entries : InputHistory → InputHistory
unfolding trimmed
trim_entries h = record h { entries = trimmed h.max_entries h.entries }

unfoldable pub reset_navigation : InputHistory → InputHistory
reset_navigation h = record h {
  index = none;
  current_buffer = none;
  edits = [];
  search_query = none;
  search_index = none;
}

unfoldable pub is_last : Text → List Text → Bool
is_last text entries = elim (last? entries) [ none ↦ false | some e ↦ text_eq e text ]

abbrev append_entry : Text → InputHistory → InputHistory
append_entry text h = record (trim_entries (record h { entries = h.entries ++ text ∷ [] })) {
  dirty = true;
}

unfoldable pub add : Text → InputHistory → InputHistory
unfolding rstrip_newlines is_last trim_entries reset_navigation
add value h =
    let text = rstrip_newlines value in
    if is_empty text || is_last text h.entries
    then reset_navigation h
    else reset_navigation (append_entry text h)

-- the file: none, one that cannot be read or is no JSON, or a JSON value, where an item of a list is a
-- text or something else
pub data Stored : Type 0 where
  no_file unreadable not_a_list : Stored
  items : List (Option Text) → Stored

unfoldable pub stored_entries : List (Option Text) → List Text
unfolding rstrip_newlines
stored_entries [] = []
stored_entries (none ∷ xs) = stored_entries xs
stored_entries (some t ∷ xs) =
    let rest = stored_entries xs in
    let text = rstrip_newlines t in if is_empty text then rest else text ∷ rest

-- `none` is the error of reading or parsing the file
unfoldable pub load : Stored → InputHistory → Option InputHistory
unfolding stored_entries trim_entries
load no_file h = some h
load unreadable h = none
load not_a_list h = some h
load (items xs) h = some (trim_entries (record h { entries = stored_entries xs }))

-- the fields of a new manager, before the file is read
abbrev pub blank : Option ℕ → Bool → InputHistory
blank max_entries persist_history = record {
  entries = [];
  max_entries = max_entries;
  persist_history = persist_history;
  index = none;
  current_buffer = none;
  search_query = none;
  search_index = none;
  edits = [];
  dirty = false;
}

unfoldable pub init : Option ℕ → Bool → Stored → Option InputHistory
unfolding load
init max_entries persist_history stored =
    if persist_history
    then load stored (blank max_entries persist_history)
    else some (blank max_entries persist_history)

-- what is written to the file, if anything
unfoldable pub save : InputHistory → Option (List Text) × InputHistory
save h = (if h.persist_history then some h.entries else none, record h { dirty = false })

unfoldable pub update_at : Option ℕ → Option Text → Text → InputHistory → InputHistory
update_at (some i) buffer text h = record h { edits = Dict.put i text h.edits }
update_at none (some _) text h = record h { current_buffer = some text }
update_at none none text h = h

unfoldable pub update_current : Text → InputHistory → InputHistory
unfolding rstrip_newlines update_at
update_current value h = update_at h.index h.current_buffer (rstrip_newlines value) h

-- the text that a call gives to the editor, if any, and the state; or an IndexError
abbrev pub Answer : Type 0
Answer = Option (Option Text × InputHistory)

abbrev pub edit_or : Option Text → Text → Text
edit_or none entry = entry
edit_or (some text) entry = text

-- `self._edits.get(self._index, self._entries[self._index])`, which reads the entry in any case
unfoldable pub show_at : ℕ → InputHistory → Answer
show_at i h = elim (get_elem? h.entries i) [
  | none ↦ none
  | some entry ↦ some (some (edit_or (Dict.get i h.edits) entry), record h { index = some i })
]

-- at an index, or in the buffer
unfoldable pub previous_from : Option ℕ → Text → InputHistory → Answer
unfolding rstrip_newlines show_at
previous_from none current h =
    show_at (length h.entries - 1) (record h { current_buffer = some (rstrip_newlines current) })
previous_from (some zero) current h = some (none, h)
previous_from (some (suc i)) current h = show_at i h

unfoldable pub navigate_previous : Text → InputHistory → Answer
unfolding previous_from
navigate_previous current h =
    if is_empty h.entries then some (none, h) else previous_from h.index current h

abbrev pub or_blank : Option Text → Text
or_blank none = []
or_blank (some t) = t

unfoldable pub next_from : Option ℕ → InputHistory → Answer
unfolding show_at
next_from none h = some (none, h)
next_from (some i) h =
    if leb (length h.entries - 1) i
    then some (some (or_blank h.current_buffer), record h { index = none })
    else show_at (i + 1) h

unfoldable pub navigate_next : InputHistory → Answer
unfolding next_from
navigate_next h = next_from h.index h

unfoldable pub reset_search : InputHistory → InputHistory
reset_search h = record h { search_query = none; search_index = none }

-- the loop of `search_backward` over the indices below `n`
unfoldable pub search_below : Text → ℕ → InputHistory → Answer
unfolding contains
search_below query zero h = some (none, h)
search_below query (suc n) h = elim (get_elem? h.entries n) [
  | none ↦ none
  | some entry ↦ elim (contains query entry) [
    | true ↦ some (some entry, record h { search_query = some query; search_index = some n })
    | false ↦ search_below query n h
  ]
]

abbrev pub same_query : Option Text → Text → Bool
same_query none query = false
same_query (some q) query = text_eq q query

-- the index that the search goes below
abbrev pub start_from : Option ℕ → Bool → ℕ → ℕ
start_from none same count = count
start_from (some i) same count = if same then i else count

unfoldable pub search_start : Text → InputHistory → ℕ
search_start query h =
    start_from h.search_index (same_query h.search_query query) (length h.entries)

unfoldable pub search_backward : Text → InputHistory → Answer
unfolding search_below search_start
search_backward query h =
    if is_empty query || is_empty h.entries
    then some (none, h)
    else search_below query (search_start query h) h
