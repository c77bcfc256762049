-- ===== src/Patch/Blanks.antt =====
-- The blank context lines of a chunk, which the search takes out or puts in.
use codeng.Prelude.{
  ℕ, zero, suc, ◌+◌, ◌-◌, Bool, ◌&&◌, not, Option, none, some, List, [], ◌∷◌, ltb, leb,
  if◌then◌else◌, length, keep, map, insert_at, get_or,
}
use codeng.Patch.Data.{context, NeedleItem, EditGroup, Chunk, is_anchor, is_context}
use codeng.Patch.Chunk.{is_blankish_line}

-- `_drop_blank_context_lines`: the items that are left, and the indices of those that are not
abbrev pub is_blank_context : NeedleItem → Bool
unfolding is_blankish_line
is_blank_context x = is_context x.type && is_blankish_line x.text

unfoldable pub blank_indices : ℕ → List NeedleItem → List ℕ
unfolding is_blank_context
blank_indices j [] = []
blank_indices j (x ∷ xs) =
    let rest = blank_indices (if is_anchor x.type then j else suc j) xs in
    if is_blank_context x then j ∷ rest else rest

abbrev below : ℕ → List ℕ → ℕ
below j indices = length (keep (λ i. ltb i j) indices)

abbrev shift_down : List ℕ → EditGroup → EditGroup
shift_down removed g = record g {
  start_pat_index = g.start_pat_index - below g.start_pat_index removed;
}

unfoldable pub drop_blank_context_lines : Chunk → Option Chunk
unfolding blank_indices is_blank_context
drop_blank_context_lines c = elim (blank_indices 0 c.items) [
  | [] ↦ none
  | i ∷ is ↦ some (record c {
    items = keep (λ x. not (is_blank_context x)) c.items;
    edits = map (shift_down (i ∷ is)) c.edits;
  })
]

-- where the item with an index of the pattern stands
unfoldable pub item_indices : ℕ → List NeedleItem → List ℕ
item_indices i [] = []
item_indices i (x ∷ xs) =
    let rest = item_indices (suc i) xs in if is_anchor x.type then rest else i ∷ rest

abbrev shift_up : ℕ → EditGroup → EditGroup
shift_up pos g =
    if leb pos g.start_pat_index then record g { start_pat_index = g.start_pat_index + 1 } else g

-- the entries from the index on, one more each
unfoldable pub bump_from : ℕ → List ℕ → List ℕ
bump_from zero [] = []
bump_from zero (i ∷ is) = (i + 1) ∷ bump_from zero is
bump_from (suc n) [] = []
bump_from (suc n) (i ∷ is) = i ∷ bump_from n is

abbrev blank_context : NeedleItem
blank_context = record { type = context; text = [] }

-- the loop of `_insert_blank_context_lines` over the sorted positions
unfoldable pub insert_blanks : List ℕ → List ℕ → Chunk → Chunk
unfolding bump_from
insert_blanks [] indices c = c
insert_blanks (pos ∷ positions) indices c =
    insert_blanks positions (bump_from pos indices) (record c {
      items = insert_at c.items (get_or indices pos 0) blank_context;
      edits = map (shift_up pos) c.edits;
    })

unfoldable pub insert_blank_context_lines : Chunk → List ℕ → Chunk
unfolding insert_blanks item_indices
insert_blank_context_lines c positions = insert_blanks positions (item_indices 0 c.items) c
