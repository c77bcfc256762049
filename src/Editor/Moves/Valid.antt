-- ===== src/Editor/Moves/Valid.antt =====
-- Every move of the cursor on a valid text, and where it leaves the cursor.
use codeng.Prelude.{ℕ, ◌+◌, ◌-◌, ◌≤◌, ◌<◌, arith, min, List, [], ◌∷◌, length, ltb, leb, ◌==◌}
use codeng.Prelude.Int.{ℤ, pos, negsuc, clamp}
use codeng.Editor.State.{Line, Editor, place}
use codeng.Editor.Valid.{
  line_at, IsValid, Valid, if-Valid, some-Valid, read-Valid, guarded-Valid, emitted,
}
use codeng.Editor.Moves.{
  set_cursor_position, move_cursor_left, move_cursor_right, move_cursor_up, move_cursor_down,
  move_cursor_line_start, move_cursor_line_end,
}

clamp-le : (i : ℤ) (top : ℕ) → clamp i top ≤ top
clamp-le (pos n) top = ground arith
clamp-le (negsuc n) top = omega arith

module _ (e : Editor) (v : IsValid e) where
  placed :
      (row col : ℕ)
      → row < length e.lines
      → col ≤ length (line_at e row)
      → IsValid (place row col e)
  placed row col h k = record { row = h; col = k }

  pub move_cursor_left-Valid : Valid (move_cursor_left e)
  unfolding move_cursor_left
  move_cursor_left-Valid = guarded-Valid e v _ (
      if-Valid (ltb 0 e.cursor_col) _ _
        (λ p. emitted e v _ (placed e.cursor_row (e.cursor_col - 1) v.row (omega (arith, v.col))))
        (λ p.
          if-Valid (ltb 0 e.cursor_row) _ _
            (λ q. read-Valid e (e.cursor_row - 1) _ (omega (arith, v.row)) (
              emitted e v _ (
                placed (e.cursor_row - 1) (length (line_at e (e.cursor_row - 1)) - 1)
                  (omega (arith, v.row)) (omega arith))))
            (λ q. emitted e v e v)))

  pub move_cursor_right-Valid : Valid (move_cursor_right e)
  unfolding move_cursor_right
  move_cursor_right-Valid = guarded-Valid e v _ (
      if-Valid (ltb e.cursor_col (length (line_at e e.cursor_row))) _ _
        (λ p. emitted e v _ (placed e.cursor_row (e.cursor_col + 1) v.row (ground (arith, p))))
        (λ p.
          if-Valid (ltb e.cursor_row (length e.lines - 1)) _ _
            (λ q.
              let there : e.cursor_row + 1 < length e.lines = ground (arith, q) in
              read-Valid e (e.cursor_row + 1) _ there (
                emitted e v _ (
                  placed (e.cursor_row + 1) (length (line_at e (e.cursor_row + 1))) there
                    (omega arith))))
            (λ q. emitted e v e v)))

  -- the same column of another row, or the end of its line
  to_row :
      (row : ℕ)
      → row < length e.lines
      → IsValid (place row (min e.cursor_col (length (line_at e row))) e)
  to_row row there = placed row (min e.cursor_col (length (line_at e row))) there (omega arith)

  pub move_cursor_up-Valid : Valid (move_cursor_up e)
  unfolding move_cursor_up
  move_cursor_up-Valid =
      if-Valid (e.cursor_row == 0) _ _ (λ p. some-Valid e v)
        (λ p.
          let there : e.cursor_row - 1 < length e.lines = omega (arith, v.row) in
          read-Valid e (e.cursor_row - 1) _ there (emitted e v _ (to_row (e.cursor_row - 1) there)))

  pub move_cursor_down-Valid : Valid (move_cursor_down e)
  unfolding move_cursor_down
  move_cursor_down-Valid =
      if-Valid (leb (length e.lines - 1) e.cursor_row) _ _ (λ p. some-Valid e v)
        (λ p.
          let there : e.cursor_row + 1 < length e.lines = ground (arith, p) in
          read-Valid e (e.cursor_row + 1) _ there (emitted e v _ (to_row (e.cursor_row + 1) there)))

  pub move_cursor_line_start-Valid : Valid (move_cursor_line_start e)
  unfolding move_cursor_line_start
  move_cursor_line_start-Valid =
      guarded-Valid e v _ (emitted e v _ (placed e.cursor_row 0 v.row (omega arith)))

  pub move_cursor_line_end-Valid : Valid (move_cursor_line_end e)
  unfolding move_cursor_line_end
  move_cursor_line_end-Valid =
      guarded-Valid e v _
        (emitted e v _ (placed e.cursor_row (length (line_at e e.cursor_row)) v.row (omega arith)))

pub set_cursor_position-Valid :
    (row col : ℤ) (e : Editor) → IsValid e → Valid (set_cursor_position row col e)
unfolding set_cursor_position
set_cursor_position-Valid row col e v = go e.lines e.cursor_row e.cursor_col e.events v
  where
    go :
        (lines : List Line) (r c : ℕ) (events : List (ℕ × ℕ))
        → let e : Editor = record {
          lines = lines;
          cursor_row = r;
          cursor_col = c;
          events = events;
        } in
          IsValid e → Valid (set_cursor_position row col e)
    go [] r c events v = absurd (omega (arith, v.row))
    go (l ∷ ls) r c events v =
        let e : Editor = record {
          lines = l ∷ ls;
          cursor_row = r;
          cursor_col = c;
          events = events;
        } in
        let there : ℕ = clamp row (length (l ∷ ls) - 1) in
        let lt : there < length (l ∷ ls) = omega (arith, clamp-le row (length (l ∷ ls) - 1)) in
        read-Valid e there _ lt (
          emitted e v _ (
            placed e v there (clamp col (length (line_at e there))) lt
              (clamp-le col (length (line_at e there)))))
