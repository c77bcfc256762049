-- ===== src/Editor/Text/Break.antt =====
-- `break_line` on the text around the cursor.
use codeng.Prelude.{
  suc, ◌+◌, ◌≤◌, ◌≡◌, refl, sym, ap, arith, min, [], ◌∷◌, ◌++◌, ◌∙◌, some, length, take, drop, set,
  insert_at, length-set, get_or-insert_at_self,
}
use mathlib.Core.List.{append_assoc, append-nil}
use codeng.Editor.State.{Editor, emit, place, indexed, read}
use codeng.Editor.Valid.{line_at, IsValid, at_cursor}
use codeng.Editor.Edits.{break_line}
use codeng.Editor.Text.{
  rows_before, rows_after, before_cursor, behind_cursor, rows_before-insert_at, drop-insert_at,
  rows_before-set-suc, drop-set,
}

-- A line break inserts a newline at the cursor.
pub break_line_lem :
    (e : Editor)
    → IsValid e
    → (e' : Editor) × (break_line e ≡ some e')
      × (before_cursor e' ≡ before_cursor e ++ 10 ∷ [])
      × (behind_cursor e' ≡ behind_cursor e)
unfolding break_line emit
break_line_lem e v =
    let ls = e.lines in
    let row = e.cursor_row in
    let line = line_at e row in
    let s = min e.cursor_col (length line) in
    let same : s ≡ e.cursor_col = omega (arith, v.col) in
    let new = set ls row (take s line) in
    let next : row + 1 ≡ suc row = omega arith in
    let bound : row + 1 ≤ length new = omega (arith, v.row, length-set ls row (take s line)) in
    (
      emit e (place (row + 1) 0 (record e { lines = insert_at new (row + 1) (drop s line) })),
      rw (at_cursor e v, indexed, read) refl,
      append-nil _
          ∙ rows_before-insert_at new (row + 1) (drop s line) bound
          ∙ ap (rows_before new) next
          ∙ rows_before-set-suc ls row (take s line) v.row
          ∙ sym (append_assoc (rows_before ls row) (take s line) (10 ∷ []))
          ∙ ap (λ n. rows_before ls row ++ take n line ++ 10 ∷ []) same,
      ap (λ l. l ++ rows_after (drop (suc (row + 1)) (insert_at new (row + 1) (drop s line))))
            (get_or-insert_at_self new (row + 1) (drop s line) [] bound)
          ∙ ap (λ l. drop s line ++ rows_after l)
              (drop-insert_at new (row + 1) (drop s line) bound
                ∙ ap (λ n. drop n new) next
                ∙ drop-set ls row (take s line))
          ∙ ap (λ n. drop n line ++ rows_after (drop (suc row) ls)) same,
    )
