-- ===== src/Patch/Exact.antt =====
-- A script on a file that has its lines: the match, and the file behind it.
use codeng.Prelude.{
  length-append, ℕ, suc, ◌+◌, Bool, true, false, Option, none, some, List, [], ◌∷◌, ◌++◌, ◌≡◌, refl,
  arith, ap, ◌∙◌, sym, length, map, drop, take,
}
use mathlib.Core.List.{append_assoc}
use codeng.Workflow.Data.{Text}
use codeng.Patch.Data.{NeedleItem, Chunk, context, deletion}
use codeng.Patch.Reverse.{needle}
use codeng.Patch.Chunk.{complete, replace_from, Emitted, pattern, build_replacement_lines}
use codeng.Patch.Emit.{result}
use codeng.Patch.Script.{kept, changed, Script, items_of, chunk_of, old_side, new_side}
use codeng.Prelude.Texts.{text_eq, text_eq_iff}
use codeng.Patch.Leaves.{script-Leaves, future, Leaves}
use codeng.Patch.Blanks.{insert_blank_context_lines, insert_blanks}
use codeng.Patch.Find.{try_match_at, match_from, match_round}
use codeng.Patch.Locate.{apply_located}

pattern-append : (xs ys : List NeedleItem) → pattern (xs ++ ys) ≡ pattern xs ++ pattern ys
unfolding pattern
pattern-append [] ys = refl
pattern-append (x ∷ xs) ys = ground (arith, pattern-append xs ys)

pattern-deletions : (ds : List Text) → pattern (map (needle deletion) ds) ≡ map (needle deletion) ds
unfolding pattern
pattern-deletions [] = refl
pattern-deletions (d ∷ ds) = ap (λ xs. needle deletion d ∷ xs) (pattern-deletions ds)

pattern-items_of : (bs : Script) → pattern (items_of bs) ≡ items_of bs
unfolding items_of pattern
pattern-items_of [] = refl
pattern-items_of (kept t ∷ bs) = ap (λ xs. needle context t ∷ xs) (pattern-items_of bs)
pattern-items_of (changed ds added ∷ bs) =
    pattern-append (map (needle deletion) ds) (items_of bs)
    ∙ ap (λ xs. xs ++ pattern (items_of bs)) (pattern-deletions ds)
    ∙ ap (λ xs. map (needle deletion) ds ++ xs) (pattern-items_of bs)

length-deletions : (ds : List Text) → length (map (needle deletion) ds) ≡ length ds
length-deletions [] = refl
length-deletions (d ∷ ds) = ap suc (length-deletions ds)

length-items_of : (bs : Script) → length (items_of bs) ≡ length (old_side bs)
unfolding items_of old_side
length-items_of [] = refl
length-items_of (kept t ∷ bs) = ap suc (length-items_of bs)
length-items_of (changed ds added ∷ bs) = omega (
  arith,
  length-append (map (needle deletion) ds) (items_of bs),
  length-append ds (old_side bs),
  length-deletions ds,
  length-items_of bs,
)

drop-append : {A : Type 0} (xs ys : List A) → drop (length xs) (xs ++ ys) ≡ ys
drop-append [] ys = refl
drop-append (x ∷ xs) ys = drop-append xs ys

take-append : {A : Type 0} (xs ys : List A) → take (length xs) (xs ++ ys) ≡ xs
take-append [] ys = refl
take-append (x ∷ xs) ys = ap (λ zs. x ∷ zs) (take-append xs ys)

drop-both : {A : Type 0} (xs ys zs : List A) → drop (length xs + length ys) (xs ++ (ys ++ zs)) ≡ zs
drop-both xs ys zs =
    rw (sym (length-append xs ys), sym (append_assoc xs ys zs)) (drop-append (xs ++ ys) zs)

complete-result :
    (o : Option Emitted) (lines : List Text) (end : ℕ)
    → result o ≡ some lines
    → complete end o ≡ some (lines, end)
unfolding complete
complete-result none lines end h = ground arith
complete-result (some (l, ps)) lines end h = ground arith

pub build_replacement_lines-script :
    (bs : Script) (pre post : List Text)
    → build_replacement_lines (pre ++ (old_side bs ++ post)) (length pre) (chunk_of bs)
      ≡ some (new_side bs, length pre + length (old_side bs))
unfolding build_replacement_lines chunk_of Leaves future
build_replacement_lines-script bs pre post =
    rw (pattern-items_of bs, drop-append pre (old_side bs ++ post))
      (complete-result (replace_from 0 (items_of bs) (old_side bs ++ post) (future 0 bs))
          (new_side bs) (length pre + length (items_of bs)) (script-Leaves bs 0 post)
        ∙ ap (λ n. some (new_side bs, length pre + n)) (length-items_of bs))

text_eq_refl : (t : Text) → text_eq t t ≡ true
text_eq_refl t = (text_eq_iff t t).1 refl

match_from-deletions :
    (ds : List Text) (j : ℕ) (seen : Bool) (xs : List NeedleItem) (ls : List Text)
    → ((i : ℕ) (b : Bool) → match_from i b xs ls ≡ some [])
    → match_from j seen (map (needle deletion) ds ++ xs) (ds ++ ls) ≡ some []
unfolding match_from match_round
match_from-deletions [] j seen xs ls rest = rest j seen
match_from-deletions (d ∷ ds) j seen xs ls rest =
    rw (text_eq_refl d, match_from) (match_from-deletions ds (suc j) true xs ls rest)

match_from-script :
    (bs : Script) (post : List Text) (j : ℕ) (seen : Bool)
    → match_from j seen (items_of bs) (old_side bs ++ post) ≡ some []
unfolding match_from match_round items_of old_side
match_from-script [] post j seen = refl
match_from-script (kept t ∷ bs) post j seen =
    rw (text_eq_refl t, match_from) (match_from-script bs post (suc j) true)
match_from-script (changed ds added ∷ bs) post j seen =
    rw (append_assoc ds (old_side bs) post) (
      match_from-deletions ds j seen (items_of bs) (old_side bs ++ post)
        (match_from-script bs post))

-- the search at a line, and the file with what it found put in
abbrev pub patched_at : List Text → Chunk → ℕ → Option (List Text)
unfolding try_match_at apply_located
patched_at lines c start = elim (try_match_at lines c start) [
  | none ↦ none
  | some found ↦ some (apply_located 0 ((found.0, found.1, found.2, c.start_line) ∷ []) lines)
]

try_match_at-script :
    (bs : Script) (pre post : List Text)
    → try_match_at (pre ++ (old_side bs ++ post)) (chunk_of bs) (length pre)
      ≡ some (length pre, length pre + length (old_side bs), new_side bs)
unfolding try_match_at chunk_of insert_blank_context_lines insert_blanks
try_match_at-script bs pre post =
    rw
      (
        pattern-items_of bs,
        drop-append pre (old_side bs ++ post),
        match_from-script bs post 0 false,
        build_replacement_lines-script bs pre post,
        try_match_at,
      )
      refl

apply_located-one :
    (pre old new post : List Text) (line : Option ℕ)
    → apply_located 0 ((length pre, length pre + length old, new, line) ∷ []) (pre ++ (old ++ post))
      ≡ pre ++ (new ++ post)
unfolding apply_located
apply_located-one pre old new post line =
    rw (take-append pre (old ++ post), drop-both pre old post) refl

-- If the lines that a chunk keeps and deletes stand in a file behind some lines, the chunk is found
-- there, and the file with the replacement put in has the lines that the chunk keeps and adds, in
-- the order of the chunk, in their place, with the same lines before and behind.
pub patched_at-script :
    (bs : Script) (pre post : List Text)
    → patched_at (pre ++ (old_side bs ++ post)) (chunk_of bs) (length pre)
      ≡ some (pre ++ (new_side bs ++ post))
unfolding patched_at
patched_at-script bs pre post =
    rw (try_match_at-script bs pre post, patched_at)
      (ap some (apply_located-one pre (old_side bs) (new_side bs) post none))
