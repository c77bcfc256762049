-- ===== src/Editor/Edits/Valid.antt =====
-- Every edit of a valid text returns, and leaves a valid text.
use codeng.Prelude.{
  ℕ, ◌+◌, ◌-◌, ◌≤◌, ◌<◌, arith, ◌≢◌, min, List, [], ◌∷◌, ◌++◌, length, get_or, ltb, ◌==◌,
  Bool-cases, inl, inr, length-append, length-set, length-take, length-drop, length-insert_at,
  length-delete_at, get_or-set_self, get_or-insert_at_self, get_or-delete_at_lt, take, drop, set,
  insert_at, delete_at, is_empty, ◌&&◌, not,
}
use codeng.Editor.State.{Line, Editor, place}
use codeng.Editor.Valid.{
  line_at, IsValid, Valid, emit-IsValid, guarded-Valid, indexed-Valid, read-Valid, if-IsValid,
  if-Valid, some-Valid, emitted,
}
use codeng.Editor.Edits.{
  with_line, insert_char, insert_text, insert_split, insert_parts, other_parts, first_part,
  join_above, backspace, delete, break_line, kill_to_line_end, kill_to_line_start,
}

-- the line of the cursor
abbrev pub here : Editor → Line
here e = line_at e e.cursor_row

module _ (e : Editor) (v : IsValid e) where
  -- a line that was written at the row of the cursor is read there
  pub with_line-IsValid :
      (line : Line) (col : ℕ)
      → col ≤ length line
      → IsValid (place e.cursor_row col (with_line e.cursor_row line e))
  with_line-IsValid line col h = record {
    row = omega (arith, length-set e.lines e.cursor_row line, v.row);
    col = rw (get_or-set_self e.lines e.cursor_row line [] v.row) h;
  }

  pub insert_char-Valid : (ch : Line) → Valid (insert_char ch e)
  unfolding insert_char
  insert_char-Valid ch = elim (Bool-cases (is_empty ch)) [
    | inl empty ↦ rw empty (some-Valid e v)
    | inr more ↦ rw more (
        indexed-Valid e v _ (
          emit-IsValid e _ (
            with_line-IsValid _ _ (
              omega (
                arith,
                v.col,
                length-append (take e.cursor_col (here e) ++ ch) (drop e.cursor_col (here e)),
                length-append (take e.cursor_col (here e)) ch,
                length-take e.cursor_col (here e),
              )))))
  ]

  pub break_line-Valid : Valid (break_line e)
  unfolding break_line
  break_line-Valid =
      let split = min e.cursor_col (length (here e)) in
      indexed-Valid e v _ (
        emit-IsValid e _ (record {
          row = omega (
            arith,
            v.row,
            length-insert_at (set e.lines e.cursor_row (take split (here e))) (e.cursor_row + 1)
                (drop split (here e)),
            length-set e.lines e.cursor_row (take split (here e)),
          );
          col = omega arith;
        }))

  pub kill_to_line_end-Valid : Valid (kill_to_line_end e)
  unfolding kill_to_line_end
  kill_to_line_end-Valid = guarded-Valid e v _ (
      emitted e v _ (
        if-IsValid (ltb e.cursor_col (length (here e))) _ _
          (λ p.
            with_line-IsValid (take e.cursor_col (here e)) e.cursor_col
              (omega (arith, v.col, length-take e.cursor_col (here e))))
          (λ p. v)))

  pub kill_to_line_start-Valid : Valid (kill_to_line_start e)
  unfolding kill_to_line_start
  kill_to_line_start-Valid = guarded-Valid e v _ (
      emitted e v _ (
        if-IsValid (ltb 0 e.cursor_col) _ _
          (λ p. with_line-IsValid (drop e.cursor_col (here e)) 0 (omega arith)) (λ p. v)))

  -- the cursor goes to a row above one that is removed
  pub cut_row-IsValid :
      (row gone col : ℕ) (line : Line)
      → row < gone
      → gone < length e.lines
      → col ≤ length line
      → IsValid (place row col (record e { lines = delete_at (set e.lines row line) gone }))
  cut_row-IsValid row gone col line lt there h = record {
    row = omega (
      arith,
      length-set e.lines row line,
      length-delete_at (set e.lines row line) gone (omega (arith, length-set e.lines row line)),
    );
    col =
        rw
          (
            get_or-delete_at_lt (set e.lines row line) gone row [] lt,
            get_or-set_self e.lines row line [] (omega arith),
          )
          h;
  }

  above_IsValid :
      e.cursor_row ≢ 0
      → let above = line_at e (e.cursor_row - 1) in IsValid (join_above (here e) above e)
  above_IsValid q =
      let above = line_at e (e.cursor_row - 1) in
      cut_row-IsValid (e.cursor_row - 1) e.cursor_row (length above) (above ++ here e)
        (omega (arith, q)) (omega (arith, v.row)) (omega (arith, length-append above (here e)))

  pub backspace-Valid : Valid (backspace e)
  unfolding backspace
  backspace-Valid =
      if-Valid (e.cursor_row == 0 && e.cursor_col == 0) _ _ (λ p. some-Valid e v)
        (λ p. read-Valid e e.cursor_row _ v.row (
          if-Valid (ltb 0 e.cursor_col && not (is_empty (here e))) _ _
            (λ q. emitted e v _ (
              with_line-IsValid (take (e.cursor_col - 1) (here e) ++ drop e.cursor_col (here e))
                (e.cursor_col - 1)
                (omega (
                  arith,
                  v.col,
                  length-append (take (e.cursor_col - 1) (here e)) (drop e.cursor_col (here e)),
                  length-take (e.cursor_col - 1) (here e),
                  length-drop e.cursor_col (here e),
                ))))
            (λ q.
              if-Valid (ltb 0 e.cursor_row) _ _
                (λ r.
                  read-Valid e (e.cursor_row - 1) _ (omega (arith, v.row))
                    (emitted e v _ (above_IsValid (ground (arith, r)))))
                (λ r. emitted e v e v))))

  pub delete-Valid : Valid (delete e)
  unfolding delete
  delete-Valid = read-Valid e e.cursor_row _ v.row (
      if-Valid (not (is_empty (here e)) && ltb e.cursor_col (length (here e))) _ _
        (λ p. emitted e v _ (with_line-IsValid rest (min e.cursor_col (length rest)) (omega arith)))
        (λ p.
          if-Valid (is_empty (here e) && ltb e.cursor_row (length e.lines - 1)) _ _
            (λ q.
              let there : e.cursor_row + 1 < length e.lines = ground (arith, q) in
              read-Valid e (e.cursor_row + 1) _ there (
                emitted e v _ (
                  cut_row-IsValid e.cursor_row (e.cursor_row + 1) (min e.cursor_col (length joined))
                    joined (omega arith) there (omega arith))))
            (λ q. emitted e v e v)))
    where
      rest : Line
      rest = take e.cursor_col (here e) ++ drop (e.cursor_col + 1) (here e)

      joined : Line
      joined = here e ++ line_at e (e.cursor_row + 1)

-- where the last part ends
abbrev PartsEnd : List Line × ℕ × ℕ → Type 0
PartsEnd r = (r.1 < length r.0) × (r.2 ≤ length (get_or r.0 r.1 []))

insert_parts-PartsEnd :
    (lines : List Line) (row : ℕ) (p : Line) (ps : List Line) (suffix : Line)
    → row ≤ length lines
    → PartsEnd (insert_parts lines row (p ∷ ps) suffix)
unfolding insert_parts
insert_parts-PartsEnd lines row p [] suffix h = (
  omega (arith, length-insert_at lines row (p ++ suffix)),
  rw (get_or-insert_at_self lines row (p ++ suffix) [] h) (omega (arith, length-append p suffix)),
)
insert_parts-PartsEnd lines row p (q ∷ qs) suffix h =
    insert_parts-PartsEnd (insert_at lines row p) (row + 1) q qs suffix
      (omega (arith, length-insert_at lines row p))

insert_split-IsValid :
    (e : Editor)
    → IsValid e
    → (ps : List Line) (first : Line) → IsValid (insert_split ps first (here e) e)
unfolding insert_split
insert_split-IsValid e v [] first =
    with_line-IsValid e v (take e.cursor_col (here e) ++ first ++ drop e.cursor_col (here e))
      (length (take e.cursor_col (here e)) + length first)
      (omega (
        arith,
        length-append (take e.cursor_col (here e) ++ first) (drop e.cursor_col (here e)),
        length-append (take e.cursor_col (here e)) first,
      ))
insert_split-IsValid e v (p ∷ ps) first =
    let head = take e.cursor_col (here e) ++ first in
    let ends =
      insert_parts-PartsEnd (set e.lines e.cursor_row head) (e.cursor_row + 1) p ps
        (drop e.cursor_col (here e)) (omega (arith, v.row, length-set e.lines e.cursor_row head)) in
    record { row = ends.0; col = ends.1 }

-- An edit that inserts a text of any number of lines returns, with the cursor behind the text.
pub insert_text-Valid : (e : Editor) → IsValid e → (text : Line) → Valid (insert_text text e)
unfolding insert_text
insert_text-Valid e v text = elim (Bool-cases (is_empty text)) [
  | inl empty ↦ rw empty (some-Valid e v)
  | inr more ↦ rw more (
      indexed-Valid e v _ (
        emit-IsValid e (insert_split (other_parts text) (first_part text) (here e) e)
          (insert_split-IsValid e v (other_parts text) (first_part text))))
]
