-- ===== src/Editor/Tests.antt =====
-- The editor on concrete texts, with the case and the classes of ASCII.
use codeng.Prelude.{
  some, ◌≡◌, ℕ, ◌+◌, ◌-◌, ◌≤◌, arith, ◌&&◌, ◌||◌, List, [], ◌∷◌, ◌++◌, ◌==◌, leb, if◌then◌else◌,
  length, map,
}
use codeng.Editor.State
use codeng.Editor.State.{Editor, Line, init}
use codeng.Editor.Words.{Unicode}
use codeng.Editor.Words.Valid.{Grows}
use codeng.Editor.Valid.{Valid, IsValid}
use codeng.Editor.Edits.{insert_text, break_line, backspace}
use codeng.Editor.Text.Break.{break_line_lem}
use codeng.Editor.Text.Erase.{drop_last, backspace_lem}
use codeng.Editor.Text.{before_cursor, behind_cursor}
use codeng.Editor.Text.Insert.{insert_text_lem}
use codeng.Editor.Run.{
  Operation, text, newline, left, back, word_left, capital_word, run_all, run_all-Valid,
}

abbrev upper_char : ℕ → ℕ
upper_char c = if leb 97 c && leb c 122 then c - 32 else c

abbrev lower_char : ℕ → ℕ
lower_char c = if leb 65 c && leb c 90 then c + 32 else c

abbrev ascii : Unicode
ascii = record {
  is_alnum = λ c. (leb 48 c && leb c 57) || (leb 65 c && leb c 90) || (leb 97 c && leb c 122);
  is_space = λ c. c == 32 || (leb 9 c && leb c 13);
  upper = map upper_char;
  lower = map lower_char;
}

length-map : (f : ℕ → ℕ) (w : Line) → length w ≤ length (map f w)
length-map f [] = omega arith
length-map f (c ∷ cs) = omega (arith, length-map f cs)

ascii-Grows : Grows ascii
ascii-Grows = record { upper = length-map upper_char; lower = length-map lower_char }

-- "ab", "cd" on a new line, two steps to the left, and the rest
abbrev session : List Operation
session =
    text (97 ∷ 98 ∷ [])
    ∷ newline
    ∷ text (99 ∷ 100 ∷ [])
    ∷ left
    ∷ back
    ∷ word_left
    ∷ capital_word
    ∷ []

run_all-Valid_example : Valid (run_all ascii session (init (120 ∷ [])))
run_all-Valid_example = run_all-Valid ascii ascii-Grows (120 ∷ []) session

-- "ab" with the cursor behind the "a"
abbrev between : Editor
between = record { lines = (97 ∷ 98 ∷ []) ∷ []; cursor_row = 0; cursor_col = 1; events = [] }

between-IsValid : IsValid between
between-IsValid = record { row = omega arith; col = omega arith }

-- "x", a newline and "y"
abbrev two_rows : Line
two_rows = 120 ∷ 10 ∷ 121 ∷ []

insert_text_lem_example :
    (e' : Editor) × (insert_text two_rows between ≡ some e')
    × (before_cursor e' ≡ before_cursor between ++ two_rows)
    × (behind_cursor e' ≡ behind_cursor between)
    × (State.text between ≡ before_cursor between ++ behind_cursor between)
    × (State.text e' ≡ before_cursor between ++ two_rows ++ behind_cursor between)
insert_text_lem_example = insert_text_lem two_rows between between-IsValid

break_line_lem_example :
    (e' : Editor) × (break_line between ≡ some e')
    × (before_cursor e' ≡ before_cursor between ++ 10 ∷ [])
    × (behind_cursor e' ≡ behind_cursor between)
break_line_lem_example = break_line_lem between between-IsValid

backspace_lem_example :
    (e' : Editor) × (backspace between ≡ some e')
    × (before_cursor e' ≡ drop_last (before_cursor between))
    × (behind_cursor e' ≡ behind_cursor between)
backspace_lem_example = backspace_lem between between-IsValid
