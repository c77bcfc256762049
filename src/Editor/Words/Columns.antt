-- ===== src/Editor/Words/Columns.antt =====
-- Where the loops of the moves by words stop, and that they read only what is there.
use codeng.Prelude.{
  ℕ, zero, suc, ◌+◌, ◌-◌, ◌≤◌, ◌<◌, ◌≡◌, ◌∙◌, ◌&&◌, if◌then◌else◌, refl, ap, arith, Bool, Option,
  some, [], length, get_or, get_elem?, get_elem?_of_lt, ltb, ◌==◌, Bool-cases, inl, inr,
}
use codeng.Editor.State.{Line, Editor}
use codeng.Editor.Valid.{line_at}
use codeng.Editor.Words.{
  Unicode, skip_back, skip_rounds, skip_ahead, Stop, in_row, or_one_back, or_one_ahead, and_skip,
  is_word_char, word_start, word_left, word_end, word_right,
}

-- a column is found, and stands between two others
abbrev pub Column : ℕ → ℕ → Option ℕ → Type 0
Column low high r = (i : ℕ) × (r ≡ some i) × (low ≤ i) × (i ≤ high)

skip_back-Column :
    (p : ℕ → Bool) (line : Line) (i : ℕ) → i ≤ length line → Column 0 i (skip_back p line i)
unfolding skip_back
skip_back-Column p line zero h = (0, refl, omega arith, omega arith)
skip_back-Column p line (suc i) h =
    let at : get_elem? line i ≡ some (get_or line i 0) =
      get_elem?_of_lt line i 0 (omega (arith, h)) in
    elim (Bool-cases (p (get_or line i 0))) [
      | inl more ↦
          let (j, e, low, le) = skip_back-Column p line i (omega (arith, h)) in
          (j, rw (at, more, skip_back) e, low, omega (arith, le))
      | inr over ↦ (suc i, rw (at, over, skip_back) refl, omega arith, omega arith)
    ]

skip_rounds-Column :
    (p : ℕ → Bool) (line : Line) (left i : ℕ)
    → i + left ≡ length line
    → Column i (length line) (skip_rounds p line left i)
unfolding skip_rounds
skip_rounds-Column p line zero i h = (i, refl, omega arith, omega (arith, h))
skip_rounds-Column p line (suc left) i h =
    let at : get_elem? line i ≡ some (get_or line i 0) =
      get_elem?_of_lt line i 0 (omega (arith, h)) in
    elim (Bool-cases (p (get_or line i 0))) [
      | inl more ↦
          let (j, e, low, le) = skip_rounds-Column p line left (i + 1) (omega (arith, h)) in
          (j, rw (at, more, skip_rounds) e, omega (arith, low), le)
      | inr over ↦ (i, rw (at, over, skip_rounds) refl, omega arith, omega (arith, h))
    ]

pub skip_ahead-Column :
    (p : ℕ → Bool) (line : Line) (i : ℕ)
    → i ≤ length line
    → Column i (length line) (skip_ahead p line i)
unfolding skip_ahead
skip_ahead-Column p line i h = skip_rounds-Column p line (length line - i) i (omega (arith, h))

-- a position in the text, in a row that is not outside of two others
abbrev pub Inside : Editor → ℕ → ℕ → Stop → Type 0
Inside e low high r =
    (row : ℕ) × (col : ℕ) × (r ≡ some (row, col))
    × (row < length e.lines)
    × (col ≤ length (line_at e row))
    × (low ≤ row)
    × (row ≤ high)

in_row-Inside :
    (e : Editor) (row low high n : ℕ) (r : Option ℕ)
    → row < length e.lines
    → low ≤ row
    → row ≤ high
    → n ≤ length (line_at e row)
    → Column 0 n r
    → Inside e low high (in_row row r)
in_row-Inside e row low high n r lt from to le (i, found, _, bound) =
    (row, i, ap (in_row row) found, lt, omega (arith, bound, le), from, to)

module _ (u : Unicode) where
  word_start-Column :
      (line : Line) (col : ℕ) → col ≤ length line → Column 0 col (word_start u line col)
  unfolding word_start
  word_start-Column line col h =
      let (i, p, _, i_le) = skip_back-Column u.is_space line col h in
      let (j, q, _, j_le) = skip_back-Column (is_word_char u) line i (omega (arith, i_le, h)) in
      (
        (if j == col && ltb 0 j then j - 1 else j),
        ap (λ o. or_one_back col (and_skip (skip_back (is_word_char u) line) o)) p
            ∙ ap (or_one_back col) q,
        omega arith,
        ground (arith, i_le, j_le),
      )

  pub word_left-Inside :
      (e : Editor) (row col : ℕ)
      → row < length e.lines
      → col ≤ length (line_at e row)
      → Inside e 0 row (word_left u e row col)
  unfolding word_left
  word_left-Inside e row (suc col) h k =
      rw (get_elem?_of_lt e.lines row [] h, word_left)
        (in_row-Inside e row 0 row (suc col) (word_start u (line_at e row) (suc col)) h
          (omega arith) (omega arith) k (word_start-Column (line_at e row) (suc col) k))
  word_left-Inside e zero zero h k =
      rw (get_elem?_of_lt e.lines zero [] h, word_left)
        (0, 0, refl, h, omega arith, omega arith, omega arith)
  word_left-Inside e (suc row) zero h k =
      let above : row < length e.lines = omega (arith, h) in
      let (r, c, found, lt, le, from, to) =
        word_left-Inside e row (length (line_at e row)) above (omega arith) in
      rw (get_elem?_of_lt e.lines (suc row) [] h, word_left)
        (rw (get_elem?_of_lt e.lines row [] above, word_left)
          (r, c, found, lt, le, from, omega (arith, to)))

  word_end-Column :
      (line : Line) (col : ℕ) → col ≤ length line → Column 0 (length line) (word_end u line col)
  unfolding word_end
  word_end-Column line col h =
      let (i, p, _, i_le) = skip_ahead-Column (is_word_char u) line col h in
      let (j, q, _, j_le) = skip_ahead-Column u.is_space line i i_le in
      let n = length line in
      (
        (if j == col && ltb j n then j + 1 else j),
        ap (λ o. or_one_ahead col n (and_skip (skip_ahead u.is_space line) o)) p
            ∙ ap (or_one_ahead col n) q,
        omega arith,
        ground (arith, j_le),
      )

  pub word_right-Inside :
      (e : Editor) (below row col : ℕ)
      → row + below < length e.lines
      → col ≤ length (line_at e row)
      → Inside e row (row + below) (word_right u e below row col)
  unfolding word_right
  word_right-Inside e zero row col h k =
      let there : row < length e.lines = omega (arith, h) in
      let line = line_at e row in
      elim (Bool-cases (ltb col (length line))) [
        | inl inside ↦
            rw (get_elem?_of_lt e.lines row [] there, inside, word_right)
              (in_row-Inside e row row (row + 0) (length line) (word_end u line col) there
                (omega arith) (omega arith) (omega arith) (word_end-Column line col k))
        | inr end ↦
            rw (get_elem?_of_lt e.lines row [] there, end, word_right)
              (row, length line, refl, there, omega arith, omega arith, omega arith)
      ]
  word_right-Inside e (suc below) row col h k =
      let there : row < length e.lines = omega (arith, h) in
      let line = line_at e row in
      elim (Bool-cases (ltb col (length line))) [
        | inl inside ↦
            rw (get_elem?_of_lt e.lines row [] there, inside, word_right)
              (in_row-Inside e row row (row + suc below) (length line) (word_end u line col) there
                (omega arith) (omega arith) (omega arith) (word_end-Column line col k))
        | inr end ↦
            let (r, c, found, lt, le, from, to) =
              word_right-Inside e below (row + 1) 0 (omega (arith, h)) (omega arith) in
            rw (get_elem?_of_lt e.lines row [] there, end, word_right)
              (r, c, found, lt, le, omega (arith, from), omega (arith, to))
      ]
