-- ===== src/Editor/State.antt =====
-- `TextEditor`: its fields, its constructor and the text as one string. A character is its code
-- point. The subscribers are the list of what they were told: one position for each event.
use codeng.Prelude.{
  ℕ, ◌-◌, Bool, ◌&&◌, Option, none, some, List, [], ◌∷◌, ◌++◌, ◌==◌, if◌then◌else◌, length,
  get_elem?,
}
use codeng.Prelude.Strings.{split_from}

abbrev pub Line : Type 0
Line = List ℕ

pub record Editor : Type 0 where
  pub lines : List Line
  pub cursor_row : ℕ
  pub cursor_col : ℕ
  pub events : List (ℕ × ℕ)

-- the lines of a new text; an empty text is one empty line
unfoldable pub lines_of : Line → List Line
unfolding split_from
lines_of text = elim (split_from [] text) [ [] ↦ [] ∷ [] | l ∷ ls ↦ l ∷ ls ]

-- the last row and the end of its line
abbrev pub end_col : List Line → ℕ
end_col [] = 0
end_col (l ∷ []) = length l
end_col (l ∷ m ∷ ms) = end_col (m ∷ ms)

unfoldable pub init : Line → Editor
unfolding lines_of
init text =
    let lines = lines_of text in
    record { lines = lines; cursor_row = length lines - 1; cursor_col = end_col lines; events = [] }

-- "\n".join(lines)
unfoldable pub join : List Line → Line
join [] = []
join (l ∷ []) = l
join (l ∷ m ∷ ms) = l ++ 10 ∷ join (m ∷ ms)

abbrev pub text : Editor → Line
text e = join e.lines

-- `_emit_cursor_event`: the subscribers hear of a move, and not of a cursor that stayed
abbrev pub same_position : Editor → Editor → Bool
same_position before e = (e.cursor_row == before.cursor_row) && (e.cursor_col == before.cursor_col)

unfoldable pub emit : Editor → Editor → Editor
emit before e = record e {
  events =
      if same_position before e then e.events else e.events ++ (e.cursor_row, e.cursor_col) ∷ [];
}

abbrev pub place : ℕ → ℕ → Editor → Editor
place row col e = record e { cursor_row = row; cursor_col = col }

-- the setter of `text`
unfoldable pub set_text : Line → Editor → Editor
unfolding lines_of emit
set_text value e =
    let lines = lines_of value in
    emit e (place (length lines - 1) (end_col lines) (record e { lines = lines }))

unfoldable pub clear : Editor → Editor
unfolding emit
clear e = emit e (place 0 0 (record e { lines = [] ∷ [] }))

-- `self._lines[row]`: `none` is `IndexError`
abbrev pub read : Editor → ℕ → (Line → Option Editor) → Option Editor
read e row f = elim (get_elem? e.lines row) [ none ↦ none | some line ↦ f line ]

-- the line of the cursor, for code that returns where there is none
abbrev pub guarded : Editor → (Line → Option Editor) → Option Editor
guarded e f = elim (get_elem? e.lines e.cursor_row) [ none ↦ some e | some line ↦ f line ]

-- the line of the cursor, for code that does not check the row and reads no other line
abbrev pub indexed : Editor → (Line → Editor) → Option Editor
indexed e f = read e e.cursor_row λ line. some (f line)
