-- ===== src/Patch/Script.antt =====
-- A chunk as a script: lines that are kept, and runs of deleted and added lines. It has the lines it
-- finds and the lines it leaves.
use codeng.Prelude.{ℕ, suc, none, List, [], ◌∷◌, ◌++◌, length, map}
use codeng.Workflow.Data.{Text}
use codeng.Patch.Data.{NeedleItem, EditGroup, Chunk, context, deletion}
use codeng.Patch.Reverse.{needle}

pub data Block : Type 0 where
  kept : Text → Block
  changed : List Text → List Text → Block

abbrev pub Script : Type 0
Script = List Block

-- the index behind some deletions
abbrev pub behind : List Text → ℕ → ℕ
behind [] j = j
behind (d ∷ ds) j = behind ds (suc j)

unfoldable pub items_of : Script → List NeedleItem
items_of [] = []
items_of (kept t ∷ bs) = needle context t ∷ items_of bs
items_of (changed deleted added ∷ bs) = map (needle deletion) deleted ++ items_of bs

unfoldable pub edits_of : ℕ → Script → List EditGroup
edits_of j [] = []
edits_of j (kept t ∷ bs) = edits_of (suc j) bs
edits_of j (changed deleted added ∷ bs) =
    record { start_pat_index = j; del_count = length deleted; additions = added }
    ∷ edits_of (behind deleted j) bs

unfoldable pub chunk_of : Script → Chunk
unfolding items_of edits_of
chunk_of bs = record { items = items_of bs; edits = edits_of 0 bs; start_line = none }

unfoldable pub old_side : Script → List Text
old_side [] = []
old_side (kept t ∷ bs) = t ∷ old_side bs
old_side (changed deleted added ∷ bs) = deleted ++ old_side bs

unfoldable pub new_side : Script → List Text
new_side [] = []
new_side (kept t ∷ bs) = t ∷ new_side bs
new_side (changed deleted added ∷ bs) = added ++ new_side bs
