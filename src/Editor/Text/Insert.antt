-- ===== src/Editor/Text/Insert.antt =====
-- `insert_text` puts the text at the cursor, which ends up behind it.
use codeng.Prelude.{
  ℕ, suc, ◌+◌, ◌≤◌, ◌≡◌, refl, sym, ap, subst, arith, List, [], ◌∷◌, ◌++◌, ◌∙◌, some, length, take,
  drop, set, insert_at, get_or, length-append, length-insert_at, length-set, get_or-set_self,
  get_or-insert_at_self,
}
use mathlib.Core.List.{append_assoc, append-nil}
use codeng.Editor.State.{Line, Editor, text, emit, indexed, read}
use codeng.Editor.Valid.{line_at, IsValid, at_cursor}
use codeng.Editor.Edits.Valid.{insert_text-Valid}
use codeng.Editor.Edits.{first_part, other_parts, insert_parts, insert_split, insert_text}
use codeng.Editor.Text.{
  rows_before, rows_after, before_cursor, behind_cursor, first_part-other_parts,
  rows_before-insert_at, rows_before-insert_at-suc, drop-insert_at, rows_before-set,
  rows_before-set-suc, drop-set, before_cursor-behind_cursor,
}

pub take-length : (xs ys : Line) → take (length xs) (xs ++ ys) ≡ xs
take-length [] ys = refl
take-length (x ∷ xs) ys = ap (λ r. x ∷ r) (take-length xs ys)

pub drop-length : (xs ys : Line) → drop (length xs) (xs ++ ys) ≡ ys
drop-length [] ys = refl
drop-length (x ∷ xs) ys = drop-length xs ys

-- the two texts of a cursor
abbrev pub Around : List Line → ℕ → ℕ → Line → Line → Type 0
Around ls row col front back =
    (rows_before ls row ++ take col (get_or ls row []) ≡ front)
    × (drop col (get_or ls row []) ++ rows_after (drop (suc row) ls) ≡ back)

-- a row that starts with `head`, the cursor behind it
pub Around-row :
    (ls : List Line) (row : ℕ) (head rest : Line)
    → get_or ls row [] ≡ head ++ rest
    → Around ls row
        (length head)
        (rows_before ls row ++ head)
        (rest ++ rows_after (drop (suc row) ls))
Around-row ls row head rest h = (
  ap (λ l. rows_before ls row ++ l) (ap (take (length head)) h ∙ take-length head rest),
  ap (λ l. l ++ rows_after (drop (suc row) ls)) (ap (drop (length head)) h ∙ drop-length head rest),
)

insert_parts-Around :
    (ls : List Line) (row : ℕ) (p : Line) (ps : List Line) (suffix : Line)
    → row ≤ length ls
    → let r = insert_parts ls row (p ∷ ps) suffix in
      Around r.0 r.1 r.2
        (rows_before ls row ++ (p ++ rows_after ps))
        (suffix ++ rows_after (drop row ls))
unfolding insert_parts rows_after
insert_parts-Around ls row p [] suffix h =
    let new = insert_at ls row (p ++ suffix) in
    let (front, back) =
      Around-row new row p suffix (get_or-insert_at_self ls row (p ++ suffix) [] h) in
    (
      front
          ∙ ap (λ l. l ++ p) (rows_before-insert_at ls row (p ++ suffix) h)
          ∙ ap (λ l. rows_before ls row ++ l) (sym (append-nil p)),
      back ∙ ap (λ l. suffix ++ rows_after l) (drop-insert_at ls row (p ++ suffix) h),
    )
insert_parts-Around ls row p (q ∷ qs) suffix h =
    let new = insert_at ls row p in
    let next : row + 1 ≡ suc row = omega arith in
    let (front, back) =
      insert_parts-Around new (row + 1) q qs suffix (omega (arith, length-insert_at ls row p)) in
    (
      front
          ∙ ap (λ n. rows_before new n ++ (q ++ rows_after qs)) next
          ∙ ap (λ l. l ++ (q ++ rows_after qs)) (rows_before-insert_at-suc ls row p h)
          ∙ append_assoc (rows_before ls row) (p ++ 10 ∷ []) (q ++ rows_after qs)
          ∙ ap (λ l. rows_before ls row ++ l) (append_assoc p (10 ∷ []) (q ++ rows_after qs)),
      back
          ∙ ap (λ n. suffix ++ rows_after (drop n new)) next
          ∙ ap (λ l. suffix ++ rows_after l) (drop-insert_at ls row p h),
    )

regroup : (r t f n p : Line) → r ++ (t ++ f ++ n) ++ p ≡ r ++ t ++ (f ++ (n ++ p))
regroup r t f n p =
    append_assoc r (t ++ f ++ n) p
    ∙ ap (λ l. r ++ l) (append_assoc (t ++ f) n p ∙ append_assoc t f (n ++ p))
    ∙ sym (append_assoc r t (f ++ (n ++ p)))

abbrev Inserted : Line → Editor → Editor → Type 0
Inserted t e e' =
    Around e'.lines e'.cursor_row e'.cursor_col (before_cursor e ++ t) (behind_cursor e)

insert_split-Inserted :
    (e : Editor) (v : IsValid e) (first : Line) (others : List Line)
    → Inserted (first ++ rows_after others) e (insert_split others first (line_at e e.cursor_row) e)
unfolding insert_split rows_after
insert_split-Inserted e v first [] =
    let ls = e.lines in
    let row = e.cursor_row in
    let line = line_at e row in
    let head = take e.cursor_col line ++ first in
    let new = head ++ drop e.cursor_col line in
    let (front, back) =
      Around-row (set ls row new) row head (drop e.cursor_col line)
        (get_or-set_self ls row new [] v.row) in
    let col : length (take e.cursor_col line) + length first ≡ length head =
      sym (length-append (take e.cursor_col line) first) in
    (
      ap (λ n. rows_before (set ls row new) row ++ take n (get_or (set ls row new) row [])) col
          ∙ front
          ∙ ap (λ l. l ++ head) (rows_before-set ls row new)
          ∙ sym (append_assoc (rows_before ls row) (take e.cursor_col line) first)
          ∙ ap (λ l. before_cursor e ++ l) (sym (append-nil first)),
      ap
            (λ n.
              drop n (get_or (set ls row new) row [])
              ++ rows_after (drop (suc row) (set ls row new)))
            col
          ∙ back
          ∙ ap (λ l. drop e.cursor_col line ++ rows_after l) (drop-set ls row new),
    )
insert_split-Inserted e v first (p ∷ ps) =
    let ls = e.lines in
    let row = e.cursor_row in
    let line = line_at e row in
    let head = take e.cursor_col line ++ first in
    let new = set ls row head in
    let next : row + 1 ≡ suc row = omega arith in
    let (front, back) =
      insert_parts-Around new (row + 1) p ps (drop e.cursor_col line)
        (omega (arith, v.row, length-set ls row head)) in
    (
      front
          ∙ ap (λ n. rows_before new n ++ (p ++ rows_after ps)) next
          ∙ ap (λ l. l ++ (p ++ rows_after ps)) (rows_before-set-suc ls row head v.row)
          ∙ regroup (rows_before ls row) (take e.cursor_col line) first (10 ∷ [])
              (p ++ rows_after ps),
      back
          ∙ ap (λ n. drop e.cursor_col line ++ rows_after (drop n new)) next
          ∙ ap (λ l. drop e.cursor_col line ++ rows_after l) (drop-set ls row head),
    )

insert_text-Inserted :
    (t : Line) (e : Editor)
    → IsValid e
    → (e' : Editor) × (insert_text t e ≡ some e') × Inserted t e e'
unfolding insert_text emit
insert_text-Inserted [] e v = (e, refl, (sym (append-nil _), refl))
insert_text-Inserted (c ∷ cs) e v =
    let line = line_at e e.cursor_row in
    let t = c ∷ cs in
    let (front, back) = insert_split-Inserted e v (first_part t) (other_parts t) in
    (
      emit e (insert_split (other_parts t) (first_part t) line e),
      rw (at_cursor e v, indexed, read) refl,
      (front ∙ ap (λ l. before_cursor e ++ l) (first_part-other_parts t), back),
    )

text_around : (e : Editor) → IsValid e → text e ≡ before_cursor e ++ behind_cursor e
text_around e v = sym (before_cursor-behind_cursor e.lines e.cursor_row e.cursor_col v.row)

-- In a valid editor a text, newlines included, is inserted where the cursor is, and the cursor ends
-- up behind it: what stood before the cursor is now followed by the text, and what stood behind it
-- is unchanged. Before and after, the whole text is what stands before and what stands behind.
pub insert_text_lem :
    (t : Line) (e : Editor)
    → IsValid e
    → (e' : Editor) × (insert_text t e ≡ some e')
      × (before_cursor e' ≡ before_cursor e ++ t)
      × (behind_cursor e' ≡ behind_cursor e)
      × (text e ≡ before_cursor e ++ behind_cursor e)
      × (text e' ≡ before_cursor e ++ t ++ behind_cursor e)
insert_text_lem t e v =
    let (e', p, (front, back)) = insert_text-Inserted t e v in
    let (e2, p2, v2) = insert_text-Valid e v t in
    let same : e2 ≡ e' = cc (p, p2) in
    (e', p, front, back, text_around e v, text_around e' (subst IsValid same v2) ∙ cc (front, back))
