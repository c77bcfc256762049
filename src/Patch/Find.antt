-- ===== src/Patch/Find.antt =====
-- `find_chunk_linear`: where a chunk stands in a file, and what replaces it there.
use codeng.Prelude.{
  ℕ, zero, suc, ◌+◌, ◌-◌, min, max, Bool, true, false, ◌&&◌, ◌||◌, not, Option, none, some, List,
  [], ◌∷◌, ◌==◌, if◌then◌else◌, length, is_empty, drop,
}
use codeng.Prelude.Texts.{text_eq}
use codeng.Prelude.Strings.{contains}
use codeng.Workflow.Data.{Text}
use codeng.Patch.Data.{NeedleItem, Chunk, is_anchor, is_context, is_deletion}
use codeng.Patch.Chunk.{pattern, is_blankish_line, build_replacement_lines}
use codeng.Patch.Blanks.{insert_blank_context_lines, drop_blank_context_lines}

-- What a round of the matching loop does with a line of the file: it takes the item of the pattern,
-- or it passes over a blank line, or the match fails. `seen` tells whether a line was matched or
-- passed over before a context line.
pub data Round : Type 0 where
  matched passed failed : Round

unfoldable pub match_round : NeedleItem → Text → Bool → Round
unfolding is_blankish_line
match_round x line seen =
    if text_eq line x.text
    then matched
    else if is_context x.type && is_blankish_line line && is_blankish_line x.text
    then matched
    else if not (is_blankish_line line)
    then failed
    else if is_context x.type && not (is_blankish_line x.text)
    then passed
    else if is_deletion x.type && seen
    then passed
    else failed

abbrev pub at_position : ℕ → Option (List ℕ) → Option (List ℕ)
at_position j none = none
at_position j (some positions) = some (j ∷ positions)

-- The loop of `try_match_at`, on the pattern from `j` on and the file from a line on. It gives the
-- indices of the pattern before which a blank line was passed over.
unfoldable pub match_from : ℕ → Bool → List NeedleItem → List Text → Option (List ℕ)
unfolding match_round
match_from j seen [] lines = some []
match_from j seen (x ∷ xs) [] = none
match_from j seen (x ∷ xs) (line ∷ lines) = elim (match_round x line seen) [
  | matched ↦ match_from (suc j) true xs lines
  | passed ↦ at_position j (match_from j (is_context x.type || seen) (x ∷ xs) lines)
  | failed ↦ none
]

abbrev pub Located : Type 0
Located = ℕ × ℕ × List Text

-- the start, the end and the replacement of a match
unfoldable pub try_match_at : List Text → Chunk → ℕ → Option Located
unfolding match_from pattern insert_blank_context_lines build_replacement_lines
try_match_at file_lines c start =
    elim (match_from 0 false (pattern c.items) (drop start file_lines)) [
      | none ↦ none
      | some positions ↦
          elim (build_replacement_lines file_lines start (insert_blank_context_lines c positions)) [
            | none ↦ none
            | some (replacement, end) ↦ some (start, end, replacement)
          ]
    ]

-- the first of `n` starts from `i` on that matches
unfoldable pub first_match : List Text → Chunk → ℕ → ℕ → Option Located
unfolding try_match_at
first_match file_lines c zero i = none
first_match file_lines c (suc n) i = elim (try_match_at file_lines c i) [
  | some r ↦ some r
  | none ↦ first_match file_lines c n (suc i)
]

-- the first line that contains the label
unfoldable pub line_with : Text → List Text → Option ℕ
unfolding contains
line_with label [] = none
line_with label (line ∷ lines) = elim (contains label line) [
  | true ↦ some 0
  | false ↦ elim (line_with label lines) [ none ↦ none | some i ↦ some (suc i) ]
]

abbrev earlier : Option ℕ → Option ℕ → Option ℕ
earlier none b = b
earlier (some i) none = some i
earlier (some i) (some j) = some (min i j)

-- the first line with the label of an anchor; an anchor without a label is passed over
unfoldable pub min_anchor : List NeedleItem → List Text → Option ℕ
unfolding line_with
min_anchor [] lines = none
min_anchor (x ∷ xs) lines =
    let rest = min_anchor xs lines in
    if is_anchor x.type && not (is_empty x.text)
    then earlier (line_with x.text lines) rest
    else rest

abbrev pub lower_bound : ℕ → Option ℕ → ℕ
lower_bound start_min none = start_min
lower_bound start_min (some i) = max start_min i

-- the candidates are `range(start_min, n_lines - pat_len + 1)`, those below the anchor left out
unfoldable pub find_exact : List Text → Chunk → ℕ → Option Located
unfolding first_match min_anchor pattern
find_exact file_lines c start_min =
    let pat_len = length (pattern c.items) in
    let first = lower_bound start_min (min_anchor c.items file_lines) in
    if pat_len == 0
    then none
    else first_match file_lines c (length file_lines + 1 - pat_len - first) first

-- how a search ends: with what it found, if anything, or with no rounds left
pub data Search : Type 0 where
  ended : Option Located → Search
  out_of_rounds : Search

-- The search, and again without the blank context lines: each round is a call of the code to itself.
unfoldable pub find_rounds : ℕ → List Text → Chunk → ℕ → Search
unfolding find_exact drop_blank_context_lines
find_rounds zero file_lines c start_min = out_of_rounds
find_rounds (suc n) file_lines c start_min = elim (find_exact file_lines c start_min) [
  | some r ↦ ended (some r)
  | none ↦ elim (drop_blank_context_lines c) [
    | none ↦ ended none
    | some c' ↦ find_rounds n file_lines c' start_min
  ]
]

abbrev pub found_by : Search → Option Located
found_by (ended r) = r
found_by out_of_rounds = none

-- the chunk that is searched for last has no blank context line: two rounds are all there are
unfoldable pub find_chunk_linear : List Text → Chunk → ℕ → Option Located
unfolding find_rounds
find_chunk_linear file_lines c start_min = found_by (find_rounds 2 file_lines c start_min)
