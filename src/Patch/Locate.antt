-- ===== src/Patch/Locate.antt =====
-- `build_commits`: the chunks of an update are located, and their blocks put into the file.
use codeng.Prelude.{
  min, ◌==◌, ℕ, Bool, true, false, ◌||◌, Option, none, some, List, [], ◌∷◌, ◌++◌, ltb, leb,
  if◌then◌else◌, drop, take,
}
use codeng.Workflow.Data.{Text}
use codeng.Patch.Data.{Chunk, PatchError, ErrorKind, not_located, out_of_order, overlapping}
use codeng.Patch.Find.{Located, find_chunk_linear}
use codeng.Patch.Effective.{error_of}

-- a block that was located, and the line of the patch where its chunk starts
abbrev pub Placed : Type 0
Placed = ℕ × ℕ × List Text × Option ℕ

-- The blocks that were located: `located` in the order of the chunks, the last of them first.
pub record LocateState : Type 0 where
  pub located : List Placed
  pub errors : List PatchError
  pub any_failed : Bool

abbrev pub nothing_located : LocateState
nothing_located = record { located = []; errors = []; any_failed = false }

-- a match that overlaps the last one is looked for again behind it
abbrev pub disambiguate : List Text → Chunk → List Placed → Located → Located
disambiguate lines c [] found = found
disambiguate lines c ((_, last_end, _, _) ∷ _) found =
    if ltb found.0 last_end
    then elim (find_chunk_linear lines c last_end) [ none ↦ found | some again ↦ again ]
    else found

abbrev pub is_before : Located → List Placed → Bool
is_before found [] = false
is_before found ((last_start, _, _, _) ∷ _) = ltb found.0 last_start

abbrev pub fail : ErrorKind → Text → Chunk → LocateState → LocateState
fail kind path c s = record {
  located = s.located;
  errors = s.errors ++ error_of kind c.start_line path ∷ [];
  any_failed = true;
}

abbrev pub place : Text → Chunk → Located → LocateState → LocateState
place path c found s =
    if is_before found s.located
    then fail out_of_order path c s
    else record s { located = (found.0, found.1, found.2, c.start_line) ∷ s.located }

unfoldable pub locate_chunk : List Text → Text → Chunk → LocateState → LocateState
unfolding find_chunk_linear
locate_chunk lines path c s = elim (find_chunk_linear lines c 0) [
  | none ↦ fail not_located path c s
  | some found ↦ place path c (disambiguate lines c s.located found) s
]

unfoldable pub locate_chunks : List Text → Text → List Chunk → LocateState → LocateState
unfolding locate_chunk
locate_chunks lines path [] s = s
locate_chunks lines path (c ∷ cs) s = locate_chunks lines path cs (locate_chunk lines path c s)

-- Python's `sort` by the start, which is stable
unfoldable pub insert_located : Placed → List Placed → List Placed
insert_located x [] = x ∷ []
insert_located x (y ∷ ys) =
    let rest = insert_located x ys in if ltb y.0 x.0 then y ∷ rest else x ∷ y ∷ ys

unfoldable pub sort_located : List Placed → List Placed
unfolding insert_located
sort_located [] = []
sort_located (x ∷ xs) = insert_located x (sort_located xs)

unfoldable pub starts_fall : List Placed → Bool
starts_fall [] = false
starts_fall (x ∷ []) = false
starts_fall (x ∷ y ∷ ys) = ltb y.0 x.0 || starts_fall (y ∷ ys)

abbrev or_zero : Option ℕ → ℕ
or_zero none = 0
or_zero (some n) = n

-- the earlier line of two, if both are known and not 0
abbrev first_line : Option ℕ → Option ℕ → Option ℕ
first_line l m = let n = min (or_zero l) (or_zero m) in if n == 0 then none else some n

-- one error for each block that ends behind the start of the next
unfoldable pub overlap_errors : Text → List Placed → List PatchError
overlap_errors path [] = []
overlap_errors path (x ∷ []) = []
overlap_errors path (x ∷ y ∷ ys) =
    let rest = overlap_errors path (y ∷ ys) in
    if leb x.1 y.0 then rest else error_of overlapping (first_line x.3 y.3) path ∷ rest

-- the lines from `cursor` on, with the blocks put in: `lines[a:b]` is `drop a (take b lines)`
unfoldable pub apply_located : ℕ → List Placed → List Text → List Text
apply_located cursor [] lines = drop cursor lines
apply_located cursor ((start, end, replacement, line) ∷ rest) lines =
    drop cursor (take start lines) ++ (replacement ++ apply_located end rest lines)
