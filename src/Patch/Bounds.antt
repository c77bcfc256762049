-- ===== src/Patch/Bounds.antt =====
-- Where a chunk is found: the bounds of a match.
use codeng.Prelude.{
  ap, map, ℕ, zero, suc, ◌+◌, ◌-◌, ◌≤◌, ◌<◌, false, Option, none, some, List, [], ◌∷◌, ◌++◌, ◌≡◌,
  refl, length, drop, arith, ap, Option-cases, inl, inr, length-drop,
}
use codeng.Workflow.Data.{Text}
use codeng.Patch.Data.{NeedleItem, Chunk, context, deletion}
use codeng.Patch.Chunk.{
  complete, pattern, replace_from, Progress, after, build_replacement_lines, fresh_progress,
  emit_insertions, emit_deletions,
}
use codeng.Patch.Reverse.{needle}
use codeng.Patch.Emit.{item_cases}
use codeng.Patch.Blanks.{drop_blank_context_lines, insert_blank_context_lines}
use codeng.Patch.Find.{
  lower_bound, min_anchor, match_from, first_match, try_match_at, find_exact, find_rounds, Search,
  ended, out_of_rounds, found_by, Located, find_chunk_linear,
}

-- the replacement fails where the pattern has more items than there are lines
abbrev Fails : List NeedleItem → Type 0
unfolding pattern replace_from
Fails xs =
    (j : ℕ) (lines : List Text) (ps : List Progress)
    → length lines < length (pattern xs)
    → replace_from j xs lines ps ≡ none

too_short-one : (xs : List NeedleItem) → Fails xs → (x : NeedleItem) → Fails (x ∷ xs)
unfolding Fails pattern replace_from
too_short-one xs ih =
    item_cases (λ x. Fails (x ∷ xs))
      (λ t j lines ps h.
        ap (after (emit_insertions j ps).0) (ih (suc j) lines (emit_insertions j ps).1 h))
      (λ t j lines ps h.
        elim lines
            as (λ ls.
              length ls < suc (length (pattern xs))
              → replace_from j (needle context t ∷ xs) ls ps ≡ none) [
                | [] ↦ λ h. refl
                | l ∷ ls ↦ λ h.
                    ap (after ((emit_insertions j ps).0 ++ l ∷ []))
                      (ih (suc j) ls (emit_insertions j ps).1 (omega arith))
              ]
          h)
      (λ t j lines ps h.
        elim lines
            as (λ ls.
              length ls < suc (length (pattern xs))
              → replace_from j (needle deletion t ∷ xs) ls ps ≡ none) [
                | [] ↦ λ h. refl
                | l ∷ ls ↦ λ h.
                    let r = emit_insertions j ps in
                    ap (after (r.0 ++ (emit_deletions j r.1).0))
                      (ih (suc j) ls (emit_deletions j r.1).1 (omega arith))
              ]
          h)

too_short : (xs : List NeedleItem) → Fails xs
unfolding Fails pattern
too_short [] = λ j lines ps h. absurd (omega arith)
too_short (x ∷ xs) = too_short-one xs (too_short xs) x

pattern-pattern : (xs : List NeedleItem) → pattern (pattern xs) ≡ pattern xs
unfolding pattern
pattern-pattern [] = refl
pattern-pattern (x ∷ xs) = ground (arith, pattern-pattern xs)

build_replacement_lines-fits :
    (lines : List Text) (start : ℕ) (c : Chunk) (r : List Text) (e : ℕ)
    → build_replacement_lines lines start c ≡ some (r, e)
    → (start ≤ e) × (e - start ≤ length lines - start)
unfolding build_replacement_lines complete Fails
build_replacement_lines-fits lines start c r e h = ground (
  arith,
  too_short (pattern c.items) 0 (drop start lines) (map fresh_progress c.edits),
  pattern-pattern c.items,
  length-drop start lines,
)

try_match_at-fits :
    (lines : List Text) (c : Chunk) (i s e : ℕ) (r : List Text)
    → try_match_at lines c i ≡ some (s, e, r)
    → (s ≡ i) × (i ≤ e) × (e - i ≤ length lines - i)
unfolding try_match_at
try_match_at-fits lines c i s e r h =
    elim (Option-cases (match_from 0 false (pattern c.items) (drop i lines))) [
      | inl missing ↦ ground arith
      | inr (p, found) ↦
          ground (arith, build_replacement_lines-fits lines i (insert_blank_context_lines c p) r e)
    ]

first_match-within :
    (lines : List Text) (c : Chunk) (n i s e : ℕ) (r : List Text)
    → first_match lines c n i ≡ some (s, e, r)
    → (i ≤ s) × (s < i + n) × (s ≤ e) × (e - s ≤ length lines - s)
unfolding first_match
first_match-within lines c zero i s e r h = ground arith
first_match-within lines c (suc n) i s e r h =
    ground (arith, first_match-within lines c n (suc i) s e r, try_match_at-fits lines c i s e r)

lower_bound-le : (m : ℕ) (o : Option ℕ) → m ≤ lower_bound m o
lower_bound-le m none = omega arith
lower_bound-le m (some i) = omega arith

find_exact-within :
    (lines : List Text) (c : Chunk) (m s e : ℕ) (r : List Text)
    → find_exact lines c m ≡ some (s, e, r)
    → (m ≤ s) × (s ≤ e) × (e ≤ length lines)
unfolding find_exact
find_exact-within lines c m s e r h =
    let first = lower_bound m (min_anchor c.items lines) in
    let n = length lines + 1 - length (pattern c.items) - first in
    ground
      (arith, first_match-within lines c n first s e r, lower_bound-le m (min_anchor c.items lines))

find_rounds-within :
    (n : ℕ) (lines : List Text) (c : Chunk) (m s e : ℕ) (r : List Text)
    → find_rounds n lines c m ≡ ended (some (s, e, r))
    → (m ≤ s) × (s ≤ e) × (e ≤ length lines)
unfolding find_rounds
find_rounds-within zero lines c m s e r h = ground arith
find_rounds-within (suc n) lines c m s e r h = elim (Option-cases (drop_blank_context_lines c)) [
  | inl missing ↦ ground (arith, find_exact-within lines c m s e r)
  | inr (d, found) ↦
      ground (arith, find_exact-within lines c m s e r, find_rounds-within n lines d m s e r)
]

ended_of : (x : Search) (l : Located) → found_by x ≡ some l → x ≡ ended (some l)
ended_of (ended r) l h = ap ended h
ended_of out_of_rounds l h = absurd (cc h)

-- If a chunk is found from a start on, its match starts there or behind, does not end before it
-- starts, and ends in the file.
pub find_chunk_linear-within :
    (lines : List Text) (c : Chunk) (m s e : ℕ) (r : List Text)
    → find_chunk_linear lines c m ≡ some (s, e, r)
    → (m ≤ s) × (s ≤ e) × (e ≤ length lines)
unfolding find_chunk_linear
find_chunk_linear-within lines c m s e r h =
    find_rounds-within 2 lines c m s e r (ended_of (find_rounds 2 lines c m) (s, e, r) h)
