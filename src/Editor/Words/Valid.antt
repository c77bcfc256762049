-- ===== src/Editor/Words/Valid.antt =====
-- The moves and edits by words read no row and no character that is not there, and keep the cursor
-- in the text.
use codeng.Prelude.{
  ℕ, ◌+◌, ◌-◌, ◌≤◌, ◌<◌, ◌≡◌, refl, sym, ap, subst, arith, min, Bool, not, Option, some, List, [],
  ◌∷◌, ◌++◌, length, get_or, leb, ◌==◌, length-append, length-set, length-take, length-drop, take,
  drop, get_or-set_self, is_empty,
}
use codeng.Editor.State.{Line, Editor, emit, place, guarded, same_position}
use codeng.Editor.Valid.{
  line_at, IsValid, Valid, at_cursor, emit-IsValid, guarded-Valid, read-Valid, if-Valid, some-Valid,
  emitted,
}
use codeng.Editor.Edits.Valid.{here, with_line-IsValid, cut_row-IsValid}
use codeng.Editor.Words.{
  Unicode, skip_ahead, Stop, move_to, is_word_char, word_left, word_right, move_cursor_word_left,
  move_cursor_word_right, kill_between, kill_word_backward, kill_back_to, kill_word_forward,
  kill_ahead_to, with_word, from_word, transform_word, capitalize,
}
use codeng.Editor.Words.Columns.{skip_ahead-Column, Inside, word_left-Inside, word_right-Inside}

kill_between-Valid :
    (m : Editor) (row col to_row to_col : ℕ)
    → IsValid m
    → row ≤ to_row
    → to_row < length m.lines
    → col ≤ length (line_at m row)
    → Valid (kill_between m row col to_row to_col)
unfolding kill_between
kill_between-Valid m row col to_row to_col v le there h =
    let first : row < length m.lines = omega (arith, le, there) in
    if-Valid (row == to_row) _ _
      (λ p. read-Valid m row _ first (
        some-Valid _ (record {
          row = omega (arith, length-set m.lines row same, first);
          col = rw (get_or-set_self m.lines row same [] first) (
              omega (
                arith,
                h,
                length-append (take col (line_at m row)) (drop to_col (line_at m row)),
                length-take col (line_at m row),
              ));
        })))
      (λ p. read-Valid m row _ first (
        read-Valid m to_row _ there (
          some-Valid _ (
            cut_row-IsValid m v row to_row col other (ground (arith, p)) there (
              omega (
                arith,
                h,
                length-append (take col (line_at m row)) (drop to_col (line_at m to_row)),
                length-take col (line_at m row),
              ))))))
  where
    same : Line
    same = take col (line_at m row) ++ drop to_col (line_at m row)

    other : Line
    other = take col (line_at m row) ++ drop to_col (line_at m to_row)

-- a move that stops at a position in the text
abbrev Moved : Editor → ℕ → ℕ → Option Editor → Type 0
Moved e low high r =
    (m : Editor) × (r ≡ some m)
    × IsValid m
    × (m.lines ≡ e.lines)
    × (low ≤ m.cursor_row)
    × (m.cursor_row ≤ high)

move_to-Moved :
    (e : Editor) (low high : ℕ) (r : Stop) → Inside e low high r → Moved e low high (move_to e r)
unfolding emit
move_to-Moved e low high r (row, col, found, lt, le, from, to) = (
  emit e (place row col e),
  ap (move_to e) found,
  emit-IsValid e (place row col e) (record { row = lt; col = le }),
  refl,
  from,
  to,
)

guarded-Moved :
    (e : Editor) (low high : ℕ) (r : Option Editor)
    → IsValid e
    → Moved e low high r
    → Moved e low high (guarded e λ line. r)
guarded-Moved e low high r v h = rw (at_cursor e v, guarded) h

Moved-Valid : (e : Editor) (low high : ℕ) (r : Option Editor) → Moved e low high r → Valid r
Moved-Valid e low high r (m, found, w, _, _, _) = (m, found, w)

module _ (u : Unicode) where
  module _ (e : Editor) (v : IsValid e) where
    move_cursor_word_left-Moved : Moved e 0 e.cursor_row (move_cursor_word_left u e)
    unfolding move_cursor_word_left
    move_cursor_word_left-Moved =
        let stop = word_left u e e.cursor_row e.cursor_col in
        guarded-Moved e 0 e.cursor_row (move_to e stop) v (
          move_to-Moved e 0 e.cursor_row stop
            (word_left-Inside u e e.cursor_row e.cursor_col v.row v.col))

    move_cursor_word_right-Moved :
        Moved e e.cursor_row
          (e.cursor_row + (length e.lines - 1 - e.cursor_row))
          (move_cursor_word_right u e)
    unfolding move_cursor_word_right
    move_cursor_word_right-Moved =
        let below = length e.lines - 1 - e.cursor_row in
        let stop = word_right u e below e.cursor_row e.cursor_col in
        guarded-Moved e e.cursor_row (e.cursor_row + below) (move_to e stop) v (
          move_to-Moved e e.cursor_row (e.cursor_row + below) stop
            (word_right-Inside u e below e.cursor_row e.cursor_col (omega (arith, v.row)) v.col))

    pub move_cursor_word_left-Valid : Valid (move_cursor_word_left u e)
    move_cursor_word_left-Valid = Moved-Valid e _ _ _ move_cursor_word_left-Moved

    pub move_cursor_word_right-Valid : Valid (move_cursor_word_right u e)
    move_cursor_word_right-Valid = Moved-Valid e _ _ _ move_cursor_word_right-Moved

    pub kill_word_backward-Valid : Valid (kill_word_backward u e)
    unfolding kill_word_backward
    kill_word_backward-Valid =
        let (m, found, w, same, _, to) = move_cursor_word_left-Moved in
        guarded-Valid e v (λ line. kill_back_to u e (move_cursor_word_left u e))
          (subst (λ o. Valid (kill_back_to u e o)) (sym found)
            (if-Valid (same_position e m) _ _ (λ p. some-Valid m w)
              (λ p.
                kill_between-Valid m m.cursor_row m.cursor_col e.cursor_row e.cursor_col w to
                  (omega (arith, v.row, ap length same)) w.col)))

    pub kill_word_forward-Valid : Valid (kill_word_forward u e)
    unfolding kill_word_forward
    kill_word_forward-Valid =
        let (m, found, w, same, from, _) = move_cursor_word_right-Moved in
        guarded-Valid e v (λ line. kill_ahead_to u e (move_cursor_word_right u e))
          (subst (λ o. Valid (kill_ahead_to u e o)) (sym found)
            (if-Valid (same_position e m) _ _ (λ p. some-Valid m w)
              (λ p.
                kill_between-Valid m e.cursor_row e.cursor_col m.cursor_row m.cursor_col w from
                  w.row
                  (subst (λ (ls : List Line). e.cursor_col ≤ length (get_or ls e.cursor_row []))
                    (sym same) v.col))))

    with_word-Valid :
        (transform : Line → Line) (i j : ℕ)
        → ((w : Line) → length w ≤ length (transform w))
        → i ≤ j
        → j ≤ length (here e)
        → Valid (with_word u transform (here e) e i (some j))
    with_word-Valid transform i j grows i_j j_le =
        let line = here e in
        let word = drop i (take j line) in
        if-Valid (is_empty word) _ _ (λ p. some-Valid e v)
          (λ p. emitted e v _ (
            with_line-IsValid e v (take i line ++ transform word ++ drop j line) j (
              omega (
                arith,
                j_le,
                i_j,
                grows word,
                length-append (take i line ++ transform word) (drop j line),
                length-append (take i line) (transform word),
                length-take i line,
                length-take j line,
                length-drop i (take j line),
                length-drop j line,
              ))))

    pub transform_word-Valid :
        (transform : Line → Line)
        → ((w : Line) → length w ≤ length (transform w))
        → Valid (transform_word u transform e)
    unfolding transform_word
    transform_word-Valid transform grows =
        let line = here e in
        let no_word : ℕ → Bool = λ c. not (is_word_char u c) in
        let start = min e.cursor_col (length line) in
        let (i, found_i, _, i_le) = skip_ahead-Column no_word line start (omega arith) in
        let (j, found_j, i_j, j_le) = skip_ahead-Column (is_word_char u) line i i_le in
        guarded-Valid e v
          (λ l. from_word u transform l e (skip_ahead no_word l (min e.cursor_col (length l))))
          (subst (λ o. Valid (from_word u transform line e o)) (sym found_i)
            (if-Valid (leb (length line) i) _ _ (λ p. some-Valid e v)
              (λ p.
                subst (λ o. Valid (with_word u transform line e i o)) (sym found_j)
                  (with_word-Valid transform i j grows i_j j_le))))

-- What is assumed of `str.upper` and `str.lower`: a text does not get shorter.
pub record Grows (u : Unicode) : Type 0 where
  pub upper : (w : Line) → length w ≤ length (u.upper w)
  pub lower : (w : Line) → length w ≤ length (u.lower w)

pub length-capitalize : (u : Unicode) → Grows u → (w : Line) → length w ≤ length (capitalize u w)
length-capitalize u g [] = omega arith
length-capitalize u g (c ∷ cs) =
    omega (arith, g.upper (c ∷ []), g.lower cs, length-append (u.upper (c ∷ [])) (u.lower cs))
