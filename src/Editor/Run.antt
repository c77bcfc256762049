-- ===== src/Editor/Run.antt =====
-- Every operation of `TextEditor` as a value, and what holds of all of them.
use codeng.Prelude.{Option, none, some, List, [], ◌∷◌}
use codeng.Prelude.Int.{ℤ}
use codeng.Editor.State.{Line, Editor, init, set_text, clear}
use codeng.Editor.Moves.{
  set_cursor_position, move_cursor_left, move_cursor_right, move_cursor_up, move_cursor_down,
  move_cursor_line_start, move_cursor_line_end,
}
use codeng.Editor.Edits.{
  insert_char, insert_text, backspace, delete, break_line, kill_to_line_end, kill_to_line_start,
}
use codeng.Editor.Words.{
  Unicode, move_cursor_word_left, move_cursor_word_right, kill_word_backward, kill_word_forward,
  uppercase_word, lowercase_word, capitalize_word,
}
use codeng.Editor.Valid.{IsValid, Valid, some-Valid, init-IsValid, set_text-IsValid, clear-IsValid}
use codeng.Editor.Moves.Valid.{
  set_cursor_position-Valid, move_cursor_left-Valid, move_cursor_right-Valid, move_cursor_up-Valid,
  move_cursor_down-Valid, move_cursor_line_start-Valid, move_cursor_line_end-Valid,
}
use codeng.Editor.Edits.Valid.{
  insert_char-Valid, insert_text-Valid, backspace-Valid, delete-Valid, break_line-Valid,
  kill_to_line_end-Valid, kill_to_line_start-Valid,
}
use codeng.Editor.Words.Valid.{
  Grows, length-capitalize, move_cursor_word_left-Valid, move_cursor_word_right-Valid,
  kill_word_backward-Valid, kill_word_forward-Valid, transform_word-Valid,
}

pub data Operation : Type 0 where
  position : ℤ → ℤ → Operation
  left right up down line_start line_end word_left word_right : Operation
  char text replace : Line → Operation
  back del newline kill_end kill_start kill_back kill_forward clear_all : Operation
  upper_word lower_word capital_word : Operation

unfoldable pub run : Unicode → Operation → Editor → Option Editor
run u (position row col) e = set_cursor_position row col e
run u left e = move_cursor_left e
run u right e = move_cursor_right e
run u up e = move_cursor_up e
run u down e = move_cursor_down e
run u line_start e = move_cursor_line_start e
run u line_end e = move_cursor_line_end e
run u word_left e = move_cursor_word_left u e
run u word_right e = move_cursor_word_right u e
run u (char c) e = insert_char c e
run u (text t) e = insert_text t e
run u (replace t) e = some (set_text t e)
run u back e = backspace e
run u del e = delete e
run u newline e = break_line e
run u kill_end e = kill_to_line_end e
run u kill_start e = kill_to_line_start e
run u kill_back e = kill_word_backward u e
run u kill_forward e = kill_word_forward u e
run u clear_all e = some (clear e)
run u upper_word e = uppercase_word u e
run u lower_word e = lowercase_word u e
run u capital_word e = capitalize_word u e

unfoldable pub run_all : Unicode → List Operation → Editor → Option Editor
run_all u [] e = some e
run_all u (o ∷ os) e = elim (run u o e) [ none ↦ none | some e' ↦ run_all u os e' ]

run-Valid : (u : Unicode) → Grows u → (o : Operation) (e : Editor) → IsValid e → Valid (run u o e)
unfolding run uppercase_word lowercase_word capitalize_word
run-Valid u g (position row col) e v = set_cursor_position-Valid row col e v
run-Valid u g left e v = move_cursor_left-Valid e v
run-Valid u g right e v = move_cursor_right-Valid e v
run-Valid u g up e v = move_cursor_up-Valid e v
run-Valid u g down e v = move_cursor_down-Valid e v
run-Valid u g line_start e v = move_cursor_line_start-Valid e v
run-Valid u g line_end e v = move_cursor_line_end-Valid e v
run-Valid u g word_left e v = move_cursor_word_left-Valid u e v
run-Valid u g word_right e v = move_cursor_word_right-Valid u e v
run-Valid u g (char c) e v = insert_char-Valid e v c
run-Valid u g (text t) e v = insert_text-Valid e v t
run-Valid u g (replace t) e v = some-Valid _ (set_text-IsValid t e)
run-Valid u g back e v = backspace-Valid e v
run-Valid u g del e v = delete-Valid e v
run-Valid u g newline e v = break_line-Valid e v
run-Valid u g kill_end e v = kill_to_line_end-Valid e v
run-Valid u g kill_start e v = kill_to_line_start-Valid e v
run-Valid u g kill_back e v = kill_word_backward-Valid u e v
run-Valid u g kill_forward e v = kill_word_forward-Valid u e v
run-Valid u g clear_all e v = some-Valid _ (clear-IsValid e)
run-Valid u g upper_word e v = transform_word-Valid u e v u.upper g.upper
run-Valid u g lower_word e v = transform_word-Valid u e v u.lower g.lower
run-Valid u g capital_word e v = transform_word-Valid u e v _ (length-capitalize u g)

run_all-from :
    (u : Unicode)
    → Grows u
    → (os : List Operation) (e : Editor) → IsValid e
    → Valid (run_all u os e)
unfolding run_all
run_all-from u g [] e v = some-Valid e v
run_all-from u g (o ∷ os) e v =
    let (e', p, v') = run-Valid u g o e v in rw (p, run_all) (run_all-from u g os e' v')

-- Whatever operations follow one another on a new editor, none of them raises, and the cursor stays
-- in the text, if a change of case makes no text shorter.
pub run_all-Valid :
    (u : Unicode)
    → Grows u
    → (start : Line) (os : List Operation) → Valid (run_all u os (init start))
run_all-Valid u g start os = run_all-from u g os (init start) (init-IsValid start)
