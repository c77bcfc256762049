-- ===== src/Editor/Edits.antt =====
-- The edits at the cursor. `none` is an `IndexError`: a row that is not there.
pub mod Valid
use codeng.Prelude.{
  ℕ, zero, suc, ◌+◌, ◌-◌, min, Bool, true, false, ◌&&◌, Option, none, some, List, [], ◌∷◌, ◌++◌,
  ◌==◌, ltb, leb, if◌then◌else◌, not, length, get_elem?, get_or, set, take, drop, delete_at,
  insert_at, is_empty,
}
use codeng.Editor.State.{Line, Editor, emit, place, read, guarded, indexed}

abbrev pub with_line : ℕ → Line → Editor → Editor
with_line row line e = record e { lines = set e.lines row line }

unfoldable pub insert_char : Line → Editor → Option Editor
unfolding emit
insert_char ch e =
    if is_empty ch
    then some e
    else indexed e λ line. emit e (
        place e.cursor_row (e.cursor_col + length ch)
          (with_line e.cursor_row (take e.cursor_col line ++ ch ++ drop e.cursor_col line) e))

-- `text.split("\n")`: the first part, and the parts behind each newline
unfoldable pub first_part : Line → Line
first_part [] = []
first_part (c ∷ cs) = if c == 10 then [] else c ∷ first_part cs

unfoldable pub other_parts : Line → List Line
unfolding first_part
other_parts [] = []
other_parts (c ∷ cs) = let rest = other_parts cs in if c == 10 then first_part cs ∷ rest else rest

-- the loop that inserts the middle parts, and the last part with what stood behind the cursor; it
-- gives the lines, the row of the last part and its length
unfoldable pub insert_parts : List Line → ℕ → List Line → Line → List Line × ℕ × ℕ
insert_parts lines row [] suffix = (lines, row, 0)
insert_parts lines row (last ∷ []) suffix = (insert_at lines row (last ++ suffix), row, length last)
insert_parts lines row (part ∷ p ∷ ps) suffix =
    insert_parts (insert_at lines row part) (row + 1) (p ∷ ps) suffix

abbrev insert_lines : Line → List Line → Line → Editor → Editor
insert_lines first others line e =
    let head = take e.cursor_col line ++ first in
    let r =
      insert_parts (set e.lines e.cursor_row head) (e.cursor_row + 1) others
        (drop e.cursor_col line) in
    place r.1 r.2 (record e { lines = r.0 })

-- the first part, and those behind each newline, put at the cursor
unfoldable pub insert_split : List Line → Line → Line → Editor → Editor
unfolding insert_parts
insert_split [] first line e =
    place e.cursor_row (length (take e.cursor_col line) + length first)
      (with_line e.cursor_row (take e.cursor_col line ++ first ++ drop e.cursor_col line) e)
insert_split (p ∷ ps) first line e = insert_lines first (p ∷ ps) line e

unfoldable pub insert_text : Line → Editor → Option Editor
unfolding emit first_part other_parts insert_split
insert_text text e =
    if is_empty text
    then some e
    else indexed e λ line. emit e (insert_split (other_parts text) (first_part text) line e)

-- joined with the line above
abbrev pub join_above : Line → Line → Editor → Editor
join_above line above e =
    let row = e.cursor_row - 1 in
    place row (length above)
      (record e { lines = delete_at (set e.lines row (above ++ line)) e.cursor_row })

unfoldable pub backspace : Editor → Option Editor
unfolding emit
backspace e =
    if e.cursor_row == 0 && e.cursor_col == 0
    then some e
    else read e e.cursor_row λ line.
      if ltb 0 e.cursor_col && not (is_empty line)
      then some (
          emit e (
            place e.cursor_row (e.cursor_col - 1)
              (with_line e.cursor_row (take (e.cursor_col - 1) line ++ drop e.cursor_col line) e)))
      else if ltb 0 e.cursor_row
      then read e (e.cursor_row - 1) (λ above. some (emit e (join_above line above e)))
      else some (emit e e)

abbrev replace_line : Line → Editor → Editor
replace_line new_line e =
    place e.cursor_row (min e.cursor_col (length new_line)) (with_line e.cursor_row new_line e)

abbrev join_below : Line → Editor → Editor
join_below joined e =
    place e.cursor_row (min e.cursor_col (length joined))
      (record e { lines = delete_at (set e.lines e.cursor_row joined) (e.cursor_row + 1) })

-- a line is joined with the next one only where it is empty
unfoldable pub delete : Editor → Option Editor
unfolding emit
delete e = read e e.cursor_row λ line.
    if not (is_empty line) && ltb e.cursor_col (length line)
    then some (emit e (replace_line (take e.cursor_col line ++ drop (e.cursor_col + 1) line) e))
    else if is_empty line && ltb e.cursor_row (length e.lines - 1)
    then read e (e.cursor_row + 1) (λ below. some (emit e (join_below (line ++ below) e)))
    else some (emit e e)

unfoldable pub break_line : Editor → Option Editor
unfolding emit
break_line e = indexed e λ line.
    let split = min e.cursor_col (length line) in
    emit e (
      place (e.cursor_row + 1) 0 (record e {
        lines =
            insert_at (set e.lines e.cursor_row (take split line)) (e.cursor_row + 1)
              (drop split line);
      }))

unfoldable pub kill_to_line_end : Editor → Option Editor
unfolding emit
kill_to_line_end e = guarded e λ line. some (
    emit e (
      if ltb e.cursor_col (length line)
      then with_line e.cursor_row (take e.cursor_col line) e
      else e))

unfoldable pub kill_to_line_start : Editor → Option Editor
unfolding emit
kill_to_line_start e = guarded e λ line. some (
    emit e (
      if ltb 0 e.cursor_col
      then place e.cursor_row 0 (with_line e.cursor_row (drop e.cursor_col line) e)
      else e))
