-- ===== src/Patch/Fuel.antt =====
-- The rounds of the search, `find_rounds`.
use codeng.Prelude.{
  ℕ, suc, not, none, some, List, [], ◌∷◌, ◌≡◌, refl, arith, keep, Option-cases, inl, inr,
}
use codeng.Workflow.Data.{Text}
use codeng.Patch.Data.{NeedleItem, Chunk}
use codeng.Patch.Blanks.{blank_indices, is_blank_context, drop_blank_context_lines}
use codeng.Patch.Find.{find_rounds, find_chunk_linear, ended}

blank_indices-keep :
    (xs : List NeedleItem) (j : ℕ) → blank_indices j (keep (λ x. not (is_blank_context x)) xs) ≡ []
unfolding blank_indices
blank_indices-keep [] j = refl
blank_indices-keep (x ∷ xs) j =
    ground (arith, blank_indices-keep xs j, blank_indices-keep xs (suc j))

drop_blank_context_lines-twice :
    (c d : Chunk) → drop_blank_context_lines c ≡ some d → drop_blank_context_lines d ≡ none
unfolding drop_blank_context_lines
drop_blank_context_lines-twice c d h = ground (arith, blank_indices-keep c.items 0)

-- The search with two rounds or more ends with a result, which does not depend on the number of
-- rounds: it is what find_chunk_linear gives, at every file, chunk and start.
pub find_rounds-enough :
    (n : ℕ) (lines : List Text) (c : Chunk) (m : ℕ)
    → find_rounds (suc (suc n)) lines c m ≡ ended (find_chunk_linear lines c m)
unfolding find_rounds find_chunk_linear
find_rounds-enough n lines c m = elim (Option-cases (drop_blank_context_lines c)) [
  | inl missing ↦ ground arith
  | inr (d, found) ↦ ground (arith, drop_blank_context_lines-twice c d found)
]
