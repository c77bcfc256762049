-- ===== src/Patch/Reverse.antt =====
-- `_reverse_chunk`: the chunk that undoes another.
use codeng.Prelude.{
  ℕ, zero, suc, ◌+◌, ◌-◌, true, false, ◌&&◌, Option, none, some, List, [], ◌∷◌, ◌++◌, ◌==◌, ltb,
  if◌then◌else◌, length, map, take,
}
use codeng.Workflow.Data.{Text}
use codeng.Patch.Data.{NeedleType, deletion, NeedleItem, EditGroup, Chunk, is_context}
use codeng.Patch.Chunk.{pattern, anchors}

-- `_reverse_chunk`: the edit with deletions that starts at the index, the last of several
unfoldable pub delete_group_at : ℕ → List EditGroup → Option EditGroup
delete_group_at pos [] = none
delete_group_at pos (g ∷ gs) = elim (delete_group_at pos gs) [
  | some h ↦ some h
  | none ↦ if ltb 0 g.del_count && g.start_pat_index == pos then some g else none
]

-- the additions of the edits without deletions at the index
unfoldable pub insertions_at : ℕ → List EditGroup → List Text
insertions_at pos [] = []
insertions_at pos (g ∷ gs) =
    let rest = insertions_at pos gs in
    if g.del_count == 0 && g.start_pat_index == pos then g.additions ++ rest else rest

abbrev pub needle : NeedleType → Text → NeedleItem
needle t line = record { type = t; text = line }

abbrev pub Reversed : Type 0
Reversed = List NeedleItem × List EditGroup

abbrev pub prepend : List NeedleItem → List EditGroup → Reversed → Reversed
prepend xs gs (items, edits) = (xs ++ items, gs ++ edits)

abbrev pub texts : List NeedleItem → List Text
texts = map (λ (x : NeedleItem). x.text)

-- the edit that undoes a deletion: it takes the additions away, at index `rev`, and gives the
-- deleted lines back
abbrev pub undo : ℕ → List Text → List Text → EditGroup
undo rev additions deleted = record {
  start_pat_index = rev;
  del_count = length additions;
  additions = deleted;
}

-- The loop over the positions, on the pattern from `pos` on; `skip` items belong to a deletion that
-- was dealt with, and `rev` counts the reversed items.
unfoldable pub reverse_from : List EditGroup → ℕ → ℕ → ℕ → List NeedleItem → Reversed
unfolding delete_group_at insertions_at
reverse_from gs pos rev zero [] = (map (needle deletion) (insertions_at pos gs), [])
reverse_from gs pos rev (suc skip) [] = ([], [])
reverse_from gs pos rev (suc skip) (x ∷ xs) = reverse_from gs (suc pos) rev skip xs
reverse_from gs pos rev zero (x ∷ xs) =
    let new = insertions_at pos gs in
    let rev1 = rev + length new in
    elim (delete_group_at pos gs) [
      | some g ↦
          prepend (map (needle deletion) (new ++ g.additions))
            (undo rev1 g.additions (texts (take g.del_count (x ∷ xs))) ∷ [])
            (reverse_from gs (suc pos) (rev1 + length g.additions) (g.del_count - 1) xs)
      | none ↦ elim (is_context x.type) [
        | true ↦
            prepend (map (needle deletion) new ++ x ∷ []) []
              (reverse_from gs (suc pos) (suc rev1) zero xs)
        | false ↦ prepend (map (needle deletion) new) [] (reverse_from gs (suc pos) rev1 zero xs)
      ]
    ]

unfoldable pub reverse_chunk : Chunk → Chunk
unfolding reverse_from pattern anchors
reverse_chunk c =
    let r = reverse_from c.edits 0 0 0 (pattern c.items) in
    record { items = anchors c.items ++ r.0; edits = r.1; start_line = c.start_line }
