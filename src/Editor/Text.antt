-- ===== src/Editor/Text.antt =====
-- The text of an editor as what stands before the cursor and what stands behind it, with a newline
-- between two rows.
pub mod Insert
pub mod Break
pub mod Erase
use codeng.Prelude.{
  ℕ, zero, suc, ◌+◌, ◌≤◌, ◌<◌, ◌≡◌, refl, sym, ap, arith, List, [], ◌∷◌, ◌++◌, ◌∙◌, Option, none,
  some, length, take, drop, take-append-drop, set, insert_at, get_or, ◌==◌, Bool-cases, inl, inr,
}
use mathlib.Core.List.{append_assoc, append-nil}
use codeng.Editor.State.{Line, Editor, join}
use codeng.Editor.Valid.{line_at}
use codeng.Editor.Edits.{first_part, other_parts, insert_parts}

-- the first rows, each with its newline
unfoldable pub rows_before : List Line → ℕ → Line
rows_before ls zero = []
rows_before [] (suc n) = []
rows_before (l ∷ ls) (suc n) = l ++ 10 ∷ rows_before ls n

-- the rows that follow another one
unfoldable pub rows_after : List Line → Line
rows_after [] = []
rows_after (l ∷ ls) = 10 ∷ l ++ rows_after ls

abbrev pub before_cursor : Editor → Line
before_cursor e = rows_before e.lines e.cursor_row ++ take e.cursor_col (line_at e e.cursor_row)

abbrev pub behind_cursor : Editor → Line
behind_cursor e =
    drop e.cursor_col (line_at e e.cursor_row) ++ rows_after (drop (suc e.cursor_row) e.lines)

-- the parts of a text, put together again, are the text
pub first_part-other_parts : (t : Line) → first_part t ++ rows_after (other_parts t) ≡ t
unfolding first_part other_parts rows_after
first_part-other_parts [] = refl
first_part-other_parts (c ∷ cs) = elim (Bool-cases (c == 10)) [
  | inl newline ↦ ground (arith, first_part-other_parts cs)
  | inr other ↦ ground (arith, first_part-other_parts cs)
]

pub rows_before-insert_at :
    (ls : List Line) (row : ℕ) (x : Line)
    → row ≤ length ls
    → rows_before (insert_at ls row x) row ≡ rows_before ls row
unfolding rows_before
rows_before-insert_at ls zero x h = refl
rows_before-insert_at [] (suc row) x h = absurd (omega arith)
rows_before-insert_at (l ∷ ls) (suc row) x h =
    ap (λ r. l ++ 10 ∷ r) (rows_before-insert_at ls row x (omega arith))

pub rows_before-insert_at-suc :
    (ls : List Line) (row : ℕ) (x : Line)
    → row ≤ length ls
    → rows_before (insert_at ls row x) (suc row) ≡ rows_before ls row ++ (x ++ 10 ∷ [])
unfolding rows_before
rows_before-insert_at-suc [] zero x h = refl
rows_before-insert_at-suc (l ∷ ls) zero x h = refl
rows_before-insert_at-suc [] (suc row) x h = absurd (omega arith)
rows_before-insert_at-suc (l ∷ ls) (suc row) x h =
    ap (λ r. l ++ 10 ∷ r) (rows_before-insert_at-suc ls row x (omega arith))
    ∙ sym (append_assoc l (10 ∷ rows_before ls row) (x ++ 10 ∷ []))

pub drop-insert_at :
    (ls : List Line) (row : ℕ) (x : Line)
    → row ≤ length ls
    → drop (suc row) (insert_at ls row x) ≡ drop row ls
drop-insert_at [] zero x h = refl
drop-insert_at (l ∷ ls) zero x h = refl
drop-insert_at [] (suc row) x h = absurd (omega arith)
drop-insert_at (l ∷ ls) (suc row) x h = drop-insert_at ls row x (omega arith)

pub rows_before-set :
    (ls : List Line) (row : ℕ) (x : Line) → rows_before (set ls row x) row ≡ rows_before ls row
unfolding rows_before
rows_before-set ls zero x = refl
rows_before-set [] (suc row) x = refl
rows_before-set (l ∷ ls) (suc row) x = ap (λ r. l ++ 10 ∷ r) (rows_before-set ls row x)

pub rows_before-set-suc :
    (ls : List Line) (row : ℕ) (x : Line)
    → row < length ls
    → rows_before (set ls row x) (suc row) ≡ rows_before ls row ++ (x ++ 10 ∷ [])
unfolding rows_before
rows_before-set-suc [] row x h = absurd (omega arith)
rows_before-set-suc (l ∷ ls) zero x h = refl
rows_before-set-suc (l ∷ ls) (suc row) x h =
    ap (λ r. l ++ 10 ∷ r) (rows_before-set-suc ls row x (omega arith))
    ∙ sym (append_assoc l (10 ∷ rows_before ls row) (x ++ 10 ∷ []))

pub drop-set :
    (ls : List Line) (row : ℕ) (x : Line) → drop (suc row) (set ls row x) ≡ drop (suc row) ls
drop-set [] row x = refl
drop-set (l ∷ ls) zero x = refl
drop-set (l ∷ ls) (suc row) x = drop-set ls row x

join-cons : (l : Line) (ls : List Line) → join (l ∷ ls) ≡ l ++ rows_after ls
unfolding join rows_after
join-cons l [] = sym (append-nil l)
join-cons l (m ∷ ms) = ap (λ r. l ++ 10 ∷ r) (join-cons m ms)

-- The two parts together are the text.
pub before_cursor-behind_cursor :
    (ls : List Line) (row col : ℕ)
    → row < length ls
    → rows_before ls row
        ++ take col (get_or ls row [])
        ++ (drop col (get_or ls row []) ++ rows_after (drop (suc row) ls))
      ≡ join ls
unfolding rows_before join
before_cursor-behind_cursor [] row col h = absurd (omega arith)
before_cursor-behind_cursor (l ∷ ls) zero col h =
    sym (append_assoc (take col l) (drop col l) (rows_after ls))
    ∙ ap (λ r. r ++ rows_after ls) (take-append-drop col l)
    ∙ sym (join-cons l ls)
before_cursor-behind_cursor (l ∷ []) (suc row) col h = absurd (omega arith)
before_cursor-behind_cursor (l ∷ m ∷ ms) (suc row) col h =
    let head = take col (get_or (m ∷ ms) row []) in
    let rest = drop col (get_or (m ∷ ms) row []) ++ rows_after (drop (suc row) (m ∷ ms)) in
    ap (λ r. r ++ rest) (append_assoc l (10 ∷ rows_before (m ∷ ms) row) head)
    ∙ append_assoc l (10 ∷ (rows_before (m ∷ ms) row ++ head)) rest
    ∙ ap (λ r. l ++ 10 ∷ r) (before_cursor-behind_cursor (m ∷ ms) row col (omega arith))
