-- ===== src/Patch/Order.antt =====
-- The blocks of an update in the order of the chunks: the sort and the test of the order behind the
-- search.
use codeng.Prelude.{
  ℕ, ◌≤◌, false, List, [], ◌∷◌, ◌≡◌, refl, arith, reverse, Bool-cases, inl, inr, Option-cases,
}
use mathlib.Core.List.{reverse_aux}
use codeng.Workflow.Data.{Text}
use codeng.Patch.Data.{Chunk}
use codeng.Patch.Find.{Located, find_chunk_linear}
use codeng.Patch.Locate.{
  Placed, LocateState, locate_chunk, locate_chunks, sort_located, insert_located, starts_fall,
  disambiguate, place, is_before, nothing_located,
}

-- no block starts behind a line
unfoldable AllLe : ℕ → List Placed → Type 0
AllLe n [] = Unit
AllLe n (x ∷ xs) = (x.0 ≤ n) × AllLe n xs

-- the last block first, none starts behind the one before it in the list
unfoldable Descending : List Placed → Type 0
unfolding AllLe
Descending [] = Unit
Descending (x ∷ xs) = AllLe x.0 xs × Descending xs

AllLe-trans : (m n : ℕ) (xs : List Placed) → m ≤ n → AllLe m xs → AllLe n xs
unfolding AllLe
AllLe-trans m n [] h all = tt
AllLe-trans m n (x ∷ xs) h (le, all) = (omega arith, AllLe-trans m n xs h all)

-- the blocks of a list do not start behind the first of another
abbrev Below : List Placed → List Placed → Type 0
unfolding AllLe
Below xs [] = Unit
Below xs (y ∷ ys) = AllLe y.0 xs

starts_fall-reverse_aux :
    (xs ys : List Placed)
    → Descending xs
    → Below xs ys
    → starts_fall ys ≡ false
    → starts_fall (reverse_aux xs ys) ≡ false
unfolding Descending starts_fall Below AllLe
starts_fall-reverse_aux [] ys d below h = h
starts_fall-reverse_aux (x ∷ xs) [] (all, d) below h =
    starts_fall-reverse_aux xs (x ∷ []) d all refl
starts_fall-reverse_aux (x ∷ xs) (y ∷ ys) (all, d) (le, below) h =
    starts_fall-reverse_aux xs (x ∷ y ∷ ys) d all (ground arith)

sort_located-ordered : (xs : List Placed) → starts_fall xs ≡ false → sort_located xs ≡ xs
unfolding sort_located insert_located starts_fall
sort_located-ordered [] h = refl
sort_located-ordered (x ∷ []) h = refl
sort_located-ordered (x ∷ y ∷ ys) h = ground (arith, sort_located-ordered (y ∷ ys))

AllLe-behind :
    (found : Located) (xs : List Placed)
    → is_before found xs ≡ false
    → Descending xs
    → AllLe found.0 xs
unfolding AllLe Descending
AllLe-behind found [] h d = tt
AllLe-behind found (x ∷ xs) h (all, d) =
    let le : x.0 ≤ found.0 = ground arith in (le, AllLe-trans x.0 found.0 xs le all)

place-Descending :
    (path : Text) (c : Chunk) (found : Located) (s : LocateState)
    → Descending s.located
    → Descending (place path c found s).located
unfolding Descending
place-Descending path c found s d = elim (Bool-cases (is_before found s.located)) [
  | inl before ↦ rw (before, place) d
  | inr behind ↦ rw (behind, place) (AllLe-behind found s.located behind d, d)
]

locate_chunk-Descending :
    (lines : List Text) (path : Text) (c : Chunk) (s : LocateState)
    → Descending s.located
    → Descending (locate_chunk lines path c s).located
unfolding locate_chunk
locate_chunk-Descending lines path c s d = elim (Option-cases (find_chunk_linear lines c 0)) [
  | inl missing ↦ rw (missing, locate_chunk) d
  | inr (found, e) ↦
      rw (e, locate_chunk) (place-Descending path c (disambiguate lines c s.located found) s d)
]

locate_chunks-Descending :
    (lines : List Text) (path : Text) (cs : List Chunk) (s : LocateState)
    → Descending s.located
    → Descending (locate_chunks lines path cs s).located
unfolding locate_chunks
locate_chunks-Descending lines path [] s d = d
locate_chunks-Descending lines path (c ∷ cs) s d =
    locate_chunks-Descending lines path cs (locate_chunk lines path c s)
      (locate_chunk-Descending lines path c s d)

-- The blocks that are located for the chunks of an update have starts that never fall, in the order
-- of the chunks, and the sort by the start leaves them as they are.
pub sort_located-locate_chunks :
    (lines : List Text) (path : Text) (cs : List Chunk)
    → let found = reverse (locate_chunks lines path cs nothing_located).located in
      (starts_fall found ≡ false) × (sort_located found ≡ found)
unfolding Descending Below starts_fall
sort_located-locate_chunks lines path cs =
    let l = locate_chunks lines path cs nothing_located in
    let order =
      starts_fall-reverse_aux l.located []
        (locate_chunks-Descending lines path cs nothing_located tt) tt refl in
    (order, sort_located-ordered (reverse l.located) order)
