-- ===== src/Editor/Text/Erase.antt =====
-- `backspace` on the text around the cursor.
use codeng.Prelude.{
  get_elem?_of_lt, ℕ, zero, suc, ◌-◌, ◌≤◌, ◌<◌, ◌≡◌, refl, sym, ap, arith, List, [], ◌∷◌, ◌++◌, ◌∙◌,
  some, length, take, drop, set, delete_at, get_or, length-take, get_or-set_self, is_empty, true,
  false, ◌==◌, ltb, not, ◌&&◌,
}
use mathlib.Core.List.{append_assoc, append-nil}
use codeng.Editor.State.{Line, Editor, emit, place, read}
use codeng.Editor.Valid.{line_at, IsValid, at_cursor}
use codeng.Editor.Edits.{backspace, with_line}
use codeng.Editor.Text.Insert.{Around-row}
use codeng.Editor.Text.{
  rows_before, rows_after, before_cursor, behind_cursor, rows_before-set, drop-set,
}

-- a text without its last character
unfoldable pub drop_last : Line → Line
drop_last [] = []
drop_last (c ∷ []) = []
drop_last (c ∷ d ∷ ds) = c ∷ drop_last (d ∷ ds)

drop_last-append : (xs : Line) (c : ℕ) → drop_last (xs ++ c ∷ []) ≡ xs
unfolding drop_last
drop_last-append [] c = refl
drop_last-append (x ∷ []) c = refl
drop_last-append (x ∷ y ∷ ys) c = ap (λ r. x ∷ r) (drop_last-append (y ∷ ys) c)

take-suc : (n : ℕ) (xs : Line) → n < length xs → (c : ℕ) × (take (suc n) xs ≡ take n xs ++ c ∷ [])
take-suc n [] h = absurd (omega arith)
take-suc zero (x ∷ xs) h = (x, refl)
take-suc (suc n) (x ∷ xs) h = let (c, p) = take-suc n xs (omega arith) in (c, ap (λ r. x ∷ r) p)

-- before a cursor that is not at the start of its line
drop_last-take :
    (xs line : Line) (n : ℕ)
    → n < length line
    → drop_last (xs ++ take (suc n) line) ≡ xs ++ take n line
drop_last-take xs line n h =
    let (c, p) = take-suc n line h in
    ap (λ l. drop_last (xs ++ l)) p
    ∙ ap drop_last (sym (append_assoc xs (take n line) (c ∷ [])))
    ∙ drop_last-append (xs ++ take n line) c

rows_before-suc :
    (ls : List Line) (r : ℕ)
    → r < length ls
    → rows_before ls (suc r) ≡ rows_before ls r ++ get_or ls r [] ++ 10 ∷ []
unfolding rows_before
rows_before-suc [] r h = absurd (omega arith)
rows_before-suc (l ∷ ls) zero h = refl
rows_before-suc (l ∷ ls) (suc r) h =
    ap (λ t. l ++ 10 ∷ t) (rows_before-suc ls r (omega arith))
    ∙ sym (append_assoc l (10 ∷ (rows_before ls r ++ get_or ls r [])) (10 ∷ []))
    ∙ ap (λ t. t ++ 10 ∷ []) (sym (append_assoc l (10 ∷ rows_before ls r) (get_or ls r [])))

module _ (x : Line) where
  rows_before-joined :
      (ls : List Line) (r : ℕ) → rows_before (delete_at (set ls r x) (suc r)) r ≡ rows_before ls r
  unfolding rows_before
  rows_before-joined ls zero = refl
  rows_before-joined [] (suc r) = refl
  rows_before-joined (l ∷ ls) (suc r) = ap (λ t. l ++ 10 ∷ t) (rows_before-joined ls r)

  get_or-joined :
      (ls : List Line) (r : ℕ) → r < length ls → get_or (delete_at (set ls r x) (suc r)) r [] ≡ x
  get_or-joined [] r h = absurd (omega arith)
  get_or-joined (l ∷ ls) zero h = refl
  get_or-joined (l ∷ ls) (suc r) h = get_or-joined ls r (omega arith)

  drop-joined :
      (ls : List Line) (r : ℕ)
      → drop (suc r) (delete_at (set ls r x) (suc r)) ≡ drop (suc (suc r)) ls
  drop-joined [] r = refl
  drop-joined (l ∷ []) zero = refl
  drop-joined (l ∷ m ∷ ms) zero = refl
  drop-joined (l ∷ ls) (suc r) = drop-joined ls r

abbrev editor : List Line → ℕ → ℕ → List (ℕ × ℕ) → Editor
editor ls row col events = record {
  lines = ls;
  cursor_row = row;
  cursor_col = col;
  events = events;
}

abbrev Erased : Editor → Type 0
Erased e =
    (e' : Editor) × (backspace e ≡ some e')
    × (before_cursor e' ≡ drop_last (before_cursor e))
    × (behind_cursor e' ≡ behind_cursor e)

pred : (n : ℕ) → suc n - 1 ≡ n
pred n = omega arith

not_empty : (line : Line) → 0 < length line → not (is_empty line) ≡ true
not_empty [] h = absurd (omega arith)
not_empty (c ∷ cs) h = refl

backspace_char :
    (ls : List Line) (row n : ℕ) (events : List (ℕ × ℕ))
    → IsValid (editor ls row (suc n) events)
    → let e = editor ls row (suc n) events in
      let line = line_at e row in
      backspace e ≡ some (emit e (place row n (with_line row (take n line ++ drop (suc n) line) e)))
unfolding backspace
backspace_char ls row n events v =
    let e = editor ls row (suc n) events in
    let start : (row == 0 && suc n == 0) ≡ false = ground arith in
    let char : (ltb 0 (suc n) && not (is_empty (line_at e row))) ≡ true =
      ground (arith, not_empty (line_at e row) (omega (arith, v.col))) in
    rw (start, at_cursor e v, read, char, pred n) refl

backspace_newline :
    (ls : List Line) (r : ℕ) (events : List (ℕ × ℕ))
    → IsValid (editor ls (suc r) 0 events)
    → let e = editor ls (suc r) 0 events in
      let above = line_at e r in
      backspace e
      ≡ some (
          emit e (
            place r
              (length above)
              (record e { lines = delete_at (set ls r (above ++ line_at e (suc r))) (suc r) })))
unfolding backspace
backspace_newline ls r events v =
    let e = editor ls (suc r) 0 events in
    let start : (suc r == 0 && 0 == 0) ≡ false = ground arith in
    let lower : ltb 0 (suc r) ≡ true = ground arith in
    rw (start, at_cursor e v, read, lower, pred r)
      (rw (get_elem?_of_lt ls r [] (omega (arith, v.row)), read)
        (ap
          (λ k. some (
            emit (editor ls (suc r) 0 events) (
              place k (length (get_or ls r [])) (record (editor ls (suc r) 0 events) {
                lines = delete_at (set ls k (get_or ls r [] ++ get_or ls (suc r) [])) (suc r);
              }))))
          (pred r)))

erase_char :
    (ls : List Line) (row n : ℕ) (events : List (ℕ × ℕ))
    → IsValid (editor ls row (suc n) events)
    → Erased (editor ls row (suc n) events)
unfolding emit
erase_char ls row n events v =
    let e = editor ls row (suc n) events in
    let line = line_at e row in
    let size : suc n ≤ length line = v.col in
    let new = take n line ++ drop (suc n) line in
    let (front, back) =
      Around-row (set ls row new) row (take n line) (drop (suc n) line)
        (get_or-set_self ls row new [] v.row) in
    let col : n ≡ length (take n line) = omega (arith, length-take n line, size) in
    (
      emit e (place row n (with_line row new e)),
      backspace_char ls row n events v,
      ap (λ k. rows_before (set ls row new) row ++ take k (get_or (set ls row new) row [])) col
          ∙ front
          ∙ ap (λ l. l ++ take n line) (rows_before-set ls row new)
          ∙ sym (drop_last-take (rows_before ls row) line n (omega (arith, size))),
      ap
            (λ k.
              drop k (get_or (set ls row new) row [])
              ++ rows_after (drop (suc row) (set ls row new)))
            col
          ∙ back
          ∙ ap (λ l. drop (suc n) line ++ rows_after l) (drop-set ls row new),
    )

erase_newline :
    (ls : List Line) (r : ℕ) (events : List (ℕ × ℕ))
    → IsValid (editor ls (suc r) 0 events)
    → Erased (editor ls (suc r) 0 events)
unfolding emit
erase_newline ls r events v =
    let e = editor ls (suc r) 0 events in
    let line = line_at e (suc r) in
    let above = line_at e r in
    let new = delete_at (set ls r (above ++ line)) (suc r) in
    let bound : r < length ls = omega (arith, v.row) in
    let (front, back) = Around-row new r above line (get_or-joined (above ++ line) ls r bound) in
    (
      emit e (place r (length above) (record e { lines = new })),
      backspace_newline ls r events v,
      front
          ∙ ap (λ l. l ++ above) (rows_before-joined (above ++ line) ls r)
          ∙ sym (
              ap drop_last (append-nil _ ∙ rows_before-suc ls r bound)
              ∙ drop_last-append (rows_before ls r ++ above) 10),
      back ∙ ap (λ l. line ++ rows_after l) (drop-joined (above ++ line) ls r),
    )

erase_nothing : (ls : List Line) (events : List (ℕ × ℕ)) → Erased (editor ls zero zero events)
unfolding backspace drop_last rows_before
erase_nothing ls events = (editor ls zero zero events, refl, refl, refl)

-- A backspace takes off the last character before the cursor, a newline included, and does nothing
-- at the start of the text; what stands behind the cursor is unchanged.
pub backspace_lem :
    (e : Editor)
    → IsValid e
    → (e' : Editor) × (backspace e ≡ some e')
      × (before_cursor e' ≡ drop_last (before_cursor e))
      × (behind_cursor e' ≡ behind_cursor e)
backspace_lem e v = erase e.lines e.cursor_row e.cursor_col e.events v
  where
    erase :
        (ls : List Line) (row col : ℕ) (events : List (ℕ × ℕ))
        → IsValid (editor ls row col events)
        → Erased (editor ls row col events)
    erase ls row (suc n) events v = erase_char ls row n events v
    erase ls (suc r) zero events v = erase_newline ls r events v
    erase ls zero zero events v = erase_nothing ls events
