-- ===== src/Patch/Chunk.antt =====
-- The pattern of a chunk, and the lines that replace a match.
use codeng.Prelude.{
  ℕ, suc, ◌+◌, Bool, true, false, ◌&&◌, not, Option, none, some, List, [], ◌∷◌, ◌++◌, ◌==◌, ltb,
  leb, if◌then◌else◌, length, map, is_empty, drop,
}
use codeng.Prelude.Strings.{strip}
use codeng.Workflow.Data.{Text}
use codeng.Patch.Data.{anchor, context, deletion, NeedleItem, EditGroup, Chunk, is_anchor}

unfoldable pub is_blankish_line : Text → Bool
unfolding strip
is_blankish_line text = is_empty (strip text)

-- the items without the anchors
unfoldable pub pattern : List NeedleItem → List NeedleItem
pattern [] = []
pattern (x ∷ xs) = let rest = pattern xs in if is_anchor x.type then rest else x ∷ rest

unfoldable pub anchors : List NeedleItem → List NeedleItem
anchors [] = []
anchors (x ∷ xs) = let rest = anchors xs in if is_anchor x.type then x ∷ rest else rest

-- an edit with what the loop of `_build_replacement_lines` knows of it: how many of its deletions
-- were met, and whether its additions were emitted
pub record Progress : Type 0 where
  pub edit : EditGroup
  pub consumed : ℕ
  pub inserted : Bool

abbrev pub fresh_progress : EditGroup → Progress
fresh_progress g = record { edit = g; consumed = 0; inserted = false }

-- the additions that a list of edits emits, and the edits after that
abbrev pub Emitted : Type 0
Emitted = List Text × List Progress

abbrev pub emit_group : Progress → Emitted → Emitted
emit_group p (lines, ps) = (p.edit.additions ++ lines, record p { inserted = true } ∷ ps)

abbrev pub pass_group : Progress → Emitted → Emitted
pass_group p (lines, ps) = (lines, p ∷ ps)

-- edits without deletions, where the loop reaches their index
unfoldable pub emit_insertions : ℕ → List Progress → Emitted
emit_insertions j [] = ([], [])
emit_insertions j (p ∷ ps) =
    let rest = emit_insertions j ps in
    if p.edit.del_count == 0 && p.edit.start_pat_index == j && not p.inserted
    then emit_group p rest
    else pass_group p rest

-- edits with deletions, where the loop consumed the deletion at the index; the last one emits
abbrev pub consume : Progress → Emitted → Emitted
consume p rest =
    let q : Progress = record p { consumed = p.consumed + 1 } in
    if (p.consumed + 1 == p.edit.del_count) && not p.inserted
    then emit_group q rest
    else pass_group q rest

unfoldable pub emit_deletions : ℕ → List Progress → Emitted
emit_deletions j [] = ([], [])
emit_deletions j (p ∷ ps) =
    let rest = emit_deletions j ps in
    if ltb 0 p.edit.del_count
      && (leb p.edit.start_pat_index j && ltb j (p.edit.start_pat_index + p.edit.del_count))
    then consume p rest
    else pass_group p rest

-- the edits at the end of the pattern
unfoldable pub emit_tail : ℕ → List Progress → Emitted
emit_tail size [] = ([], [])
emit_tail size (p ∷ ps) =
    let rest = emit_tail size ps in
    if p.edit.start_pat_index == size && not p.inserted
    then emit_group p rest
    else pass_group p rest

abbrev pub after : List Text → Option Emitted → Option Emitted
after lines none = none
after lines (some (more, ps)) = some (lines ++ more, ps)

-- the loop over the pattern; the lines are those of the file from the match on. `none` is a match
-- that ends behind the last line.
unfoldable pub replace_from : ℕ → List NeedleItem → List Text → List Progress → Option Emitted
unfolding emit_insertions emit_deletions emit_tail
replace_from j [] lines ps = some (emit_tail j ps)
replace_from j (x ∷ xs) lines ps =
    let r = emit_insertions j ps in
    elim x.type [
      | anchor ↦ after r.0 (replace_from (suc j) xs lines r.1)
      | context ↦ elim lines [
        | [] ↦ none
        | l ∷ ls ↦ after (r.0 ++ l ∷ []) (replace_from (suc j) xs ls r.1)
      ]
      | deletion ↦ elim lines [
        | [] ↦ none
        | l ∷ ls ↦
            let d = emit_deletions j r.1 in after (r.0 ++ d.0) (replace_from (suc j) xs ls d.1)
      ]
    ]

-- the tests behind the loop: every edit met its deletions and emitted its additions. The code also
-- compares the number of emitted additions with the patch's, which these tests imply.
unfoldable pub all_done : List Progress → Bool
all_done [] = true
all_done (p ∷ ps) =
    not (ltb 0 p.edit.del_count && not (p.consumed == p.edit.del_count))
    && p.inserted
    && all_done ps

-- the replacement, unless a test behind the loop fails, with the index behind the match
unfoldable pub complete : ℕ → Option Emitted → Option (List Text × ℕ)
unfolding all_done
complete end none = none
complete end (some (lines, ps)) = if all_done ps then some (lines, end) else none

unfoldable pub build_replacement_lines : List Text → ℕ → Chunk → Option (List Text × ℕ)
unfolding replace_from pattern complete
build_replacement_lines file_lines start c =
    complete (start + length (pattern c.items))
      (replace_from 0 (pattern c.items) (drop start file_lines) (map fresh_progress c.edits))
