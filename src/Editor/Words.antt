-- ===== src/Editor/Words.antt =====
-- The moves and edits by words. What Python's `str` says of a character, and its changes of case, are
-- parameters. `none` is an `IndexError`, of a line or of a character.
pub mod Columns
pub mod Valid
use codeng.Prelude.{
  ℕ, zero, suc, ◌+◌, ◌-◌, ◌≤◌, min, Bool, true, false, ◌&&◌, ◌||◌, Option, none, some, List, [],
  ◌∷◌, ◌++◌, ◌==◌, ltb, leb, if◌then◌else◌, not, length, get_elem?, take, drop, delete_at, set,
  is_empty,
}
use codeng.Editor.State.{Line, Editor, emit, place, read, guarded, same_position}
use codeng.Editor.Edits.{with_line}

-- `str.isalnum` and `str.isspace` of one character, `str.upper` and `str.lower`
pub record Unicode : Type 0 where
  pub is_alnum : ℕ → Bool
  pub is_space : ℕ → Bool
  pub upper : Line → Line
  pub lower : Line → Line

-- `while i > 0 and p(line[i - 1])`: the column where the loop ends
unfoldable pub skip_back : (ℕ → Bool) → Line → ℕ → Option ℕ
skip_back p line zero = some zero
skip_back p line (suc i) = elim (get_elem? line i) [
  | none ↦ none
  | some c ↦ elim (p c) [ true ↦ skip_back p line i | false ↦ some (suc i) ]
]

-- `while i < n and p(line[i])`, with `n - i` rounds left
unfoldable pub skip_rounds : (ℕ → Bool) → Line → ℕ → ℕ → Option ℕ
skip_rounds p line zero i = some i
skip_rounds p line (suc left) i = elim (get_elem? line i) [
  | none ↦ none
  | some c ↦ elim (p c) [ true ↦ skip_rounds p line left (i + 1) | false ↦ some i ]
]

unfoldable pub skip_ahead : (ℕ → Bool) → Line → ℕ → Option ℕ
unfolding skip_rounds
skip_ahead p line i = skip_rounds p line (length line - i) i

-- what stands between two positions is cut out; only the later row is removed
unfoldable pub kill_between : Editor → ℕ → ℕ → ℕ → ℕ → Option Editor
kill_between e row col to_row to_col =
    if row == to_row
    then read e row
        (λ line. some (place row col (with_line row (take col line ++ drop to_col line) e)))
    else read e row λ first. read e to_row λ last. some (
        place row col (record e {
          lines = delete_at (set e.lines row (take col first ++ drop to_col last)) to_row;
        }))

-- a position where a move stops: a row and a column
abbrev pub Stop : Type 0
Stop = Option (ℕ × ℕ)

abbrev pub in_row : ℕ → Option ℕ → Stop
in_row row none = none
in_row row (some i) = some (row, i)

abbrev pub move_to : Editor → Stop → Option Editor
move_to e none = none
move_to e (some (row, col)) = some (emit e (place row col e))

-- where a run of spaces and then a run of word characters is skipped, or one character
abbrev pub or_one_back : ℕ → Option ℕ → Option ℕ
or_one_back col none = none
or_one_back col (some i) = some (if i == col && ltb 0 i then i - 1 else i)

abbrev pub or_one_ahead : ℕ → ℕ → Option ℕ → Option ℕ
or_one_ahead col n none = none
or_one_ahead col n (some i) = some (if i == col && ltb i n then i + 1 else i)

abbrev pub and_skip : (ℕ → Option ℕ) → Option ℕ → Option ℕ
and_skip f none = none
and_skip f (some i) = f i

module _ (u : Unicode) where
  unfoldable pub is_word_char : ℕ → Bool
  is_word_char c = u.is_alnum c || c == b'_'

  unfoldable pub word_start : Line → ℕ → Option ℕ
  unfolding skip_back is_word_char
  word_start line col =
      or_one_back col (and_skip (skip_back is_word_char line) (skip_back u.is_space line col))

  -- the loop of `move_cursor_word_left`: the row and the column where it stops
  unfoldable pub word_left : Editor → ℕ → ℕ → Stop
  unfolding word_start
  word_left e row (suc col) = elim (get_elem? e.lines row) [
    | none ↦ none
    | some line ↦ in_row row (word_start line (suc col))
  ]
  word_left e zero zero = elim (get_elem? e.lines zero) [ none ↦ none | some line ↦ some (0, 0) ]
  word_left e (suc row) zero = elim (get_elem? e.lines (suc row)) [
    | none ↦ none
    | some line ↦ elim (get_elem? e.lines row) [
      | none ↦ none
      | some above ↦ word_left e row (length above)
    ]
  ]

  unfoldable pub move_cursor_word_left : Editor → Option Editor
  unfolding emit word_left
  move_cursor_word_left e = guarded e λ line. move_to e (word_left e e.cursor_row e.cursor_col)

  unfoldable pub word_end : Line → ℕ → Option ℕ
  unfolding skip_ahead is_word_char
  word_end line col =
      or_one_ahead col (length line)
        (and_skip (skip_ahead u.is_space line) (skip_ahead is_word_char line col))

  -- the loop of `move_cursor_word_right`, with the rows below as its fuel
  unfoldable pub word_right : Editor → ℕ → ℕ → ℕ → Stop
  unfolding word_end
  word_right e zero row col = elim (get_elem? e.lines row) [
    | none ↦ none
    | some line ↦
        if ltb col (length line) then in_row row (word_end line col) else some (row, length line)
  ]
  word_right e (suc below) row col = elim (get_elem? e.lines row) [
    | none ↦ none
    | some line ↦ elim (ltb col (length line)) [
      | true ↦ in_row row (word_end line col)
      | false ↦ word_right e below (row + 1) 0
    ]
  ]

  unfoldable pub move_cursor_word_right : Editor → Option Editor
  unfolding emit word_right
  move_cursor_word_right e =
      guarded e λ line.
        move_to e (word_right e (length e.lines - 1 - e.cursor_row) e.cursor_row e.cursor_col)

  -- `m` is the editor behind the move to the left
  abbrev pub kill_back_to : Editor → Option Editor → Option Editor
  kill_back_to e none = none
  kill_back_to e (some m) =
      if same_position e m
      then some m
      else kill_between m m.cursor_row m.cursor_col e.cursor_row e.cursor_col

  unfoldable pub kill_word_backward : Editor → Option Editor
  unfolding move_cursor_word_left kill_between
  kill_word_backward e = guarded e λ line. kill_back_to e (move_cursor_word_left e)

  abbrev pub kill_ahead_to : Editor → Option Editor → Option Editor
  kill_ahead_to e none = none
  kill_ahead_to e (some m) =
      if same_position e m
      then some m
      else kill_between m e.cursor_row e.cursor_col m.cursor_row m.cursor_col

  unfoldable pub kill_word_forward : Editor → Option Editor
  unfolding move_cursor_word_right kill_between
  kill_word_forward e = guarded e λ line. kill_ahead_to e (move_cursor_word_right e)

  -- the word from `i` to `j` of the line is replaced; the cursor goes to where the word ended
  abbrev pub with_word : (Line → Line) → Line → Editor → ℕ → Option ℕ → Option Editor
  with_word transform line e i none = none
  with_word transform line e i (some j) =
      if is_empty (drop i (take j line))
      then some e
      else some (
          emit e (
            place e.cursor_row j (
              with_line e.cursor_row
                (take i line ++ transform (drop i (take j line)) ++ drop j line) e)))

  abbrev pub from_word : (Line → Line) → Line → Editor → Option ℕ → Option Editor
  from_word transform line e none = none
  from_word transform line e (some i) =
      if leb (length line) i
      then some e
      else with_word transform line e i (skip_ahead is_word_char line i)

  -- the word at the cursor or behind it
  unfoldable pub transform_word : (Line → Line) → Editor → Option Editor
  unfolding emit skip_ahead is_word_char
  transform_word transform e = guarded e λ line.
      from_word transform line e
        (skip_ahead (λ c. not (is_word_char c)) line (min e.cursor_col (length line)))

  unfoldable pub uppercase_word : Editor → Option Editor
  unfolding transform_word
  uppercase_word = transform_word u.upper

  unfoldable pub lowercase_word : Editor → Option Editor
  unfolding transform_word
  lowercase_word = transform_word u.lower

  abbrev pub capitalize : Line → Line
  capitalize [] = []
  capitalize (c ∷ cs) = u.upper (c ∷ []) ++ u.lower cs

  unfoldable pub capitalize_word : Editor → Option Editor
  unfolding transform_word
  capitalize_word = transform_word capitalize
