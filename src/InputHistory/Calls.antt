-- ===== src/InputHistory/Calls.antt =====
-- Every call of the terminal interface as a value, and sequences of calls.
use codeng.Prelude.{true, false, Bool, none, some, List, [], ◌∷◌}
use codeng.Workflow.Data.{Text}
use codeng.InputHistory.State.{
  InputHistory, Stored, unreadable, items, stored_entries, add, save, update_current, Answer,
  navigate_previous, navigate_next, reset_search, search_backward,
}

-- the calls of the terminal interface
pub data Call : Type 0 where
  enter type_text previous search : Text → Call
  next stop_search save_now : Call

unfoldable pub call : Call → InputHistory → Answer
call (enter value) h = some (none, add value h)
call (type_text value) h = some (none, update_current value h)
call (previous current) h = navigate_previous current h
call (search query) h = search_backward query h
call next h = navigate_next h
call stop_search h = some (none, reset_search h)
call save_now h = some (none, (save h).1)

unfoldable pub call_all : List Call → InputHistory → Answer
unfolding call
call_all [] h = some (none, h)
call_all (c ∷ cs) h = elim (call c h) [ none ↦ none | some (text, h') ↦ call_all cs h' ]

-- the texts that a new manager takes from the file
unfoldable pub read_entries : Bool → Stored → List Text
unfolding stored_entries
read_entries true (items xs) = stored_entries xs
read_entries _ _ = []

-- the file is not read, or can be
abbrev pub is_readable : Bool → Stored → Bool
is_readable true unreadable = false
is_readable _ _ = true
