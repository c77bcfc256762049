-- ===== src/Editor/Moves.antt =====
-- The moves of the cursor that do not look at words. `none` is an `IndexError`.
pub mod Valid
use codeng.Prelude.{
  ℕ, zero, suc, ◌+◌, ◌-◌, min, Bool, true, false, ◌&&◌, Option, none, some, List, [], ◌∷◌, ◌==◌,
  ltb, leb, if◌then◌else◌, length, get_elem?,
}
use codeng.Prelude.Int.{ℤ, clamp}
use codeng.Editor.State.{Line, Editor, emit, place, read, guarded}

unfoldable pub set_cursor_position : ℤ → ℤ → Editor → Option Editor
unfolding emit
set_cursor_position row col e = elim e.lines [
  | [] ↦ some (emit e (place 0 0 e))
  | _ ∷ _ ↦
      let r = clamp row (length e.lines - 1) in
      read e r λ line. some (emit e (place r (clamp col (length line)) e))
]

-- left of the start of a line is one before the end of the line above
unfoldable pub move_cursor_left : Editor → Option Editor
unfolding emit
move_cursor_left e = guarded e λ line.
    if ltb 0 e.cursor_col
    then some (emit e (place e.cursor_row (e.cursor_col - 1) e))
    else if ltb 0 e.cursor_row
    then read e (e.cursor_row - 1)
        (λ above. some (emit e (place (e.cursor_row - 1) (length above - 1) e)))
    else some (emit e e)

-- right of the end of a line is the end of the line below
unfoldable pub move_cursor_right : Editor → Option Editor
unfolding emit
move_cursor_right e = guarded e λ line.
    if ltb e.cursor_col (length line)
    then some (emit e (place e.cursor_row (e.cursor_col + 1) e))
    else if ltb e.cursor_row (length e.lines - 1)
    then read e (e.cursor_row + 1)
        (λ below. some (emit e (place (e.cursor_row + 1) (length below) e)))
    else some (emit e e)

unfoldable pub move_cursor_up : Editor → Option Editor
unfolding emit
move_cursor_up e =
    if e.cursor_row == 0
    then some e
    else let row = e.cursor_row - 1 in
      read e row λ line. some (emit e (place row (min e.cursor_col (length line)) e))

unfoldable pub move_cursor_down : Editor → Option Editor
unfolding emit
move_cursor_down e =
    if leb (length e.lines - 1) e.cursor_row
    then some e
    else let row = e.cursor_row + 1 in
      read e row λ line. some (emit e (place row (min e.cursor_col (length line)) e))

unfoldable pub move_cursor_line_start : Editor → Option Editor
unfolding emit
move_cursor_line_start e = guarded e λ line. some (emit e (place e.cursor_row 0 e))

unfoldable pub move_cursor_line_end : Editor → Option Editor
unfolding emit
move_cursor_line_end e = guarded e λ line. some (emit e (place e.cursor_row (length line) e))
