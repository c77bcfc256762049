-- ===== src/Patch/Leaves.antt =====
-- The loop of `_build_replacement_lines` over the pattern of a script.
use codeng.Prelude.{
  ℕ, suc, ◌+◌, ◌≤◌, ◌<◌, true, false, some, List, [], ◌∷◌, ◌++◌, ◌≡◌, refl, arith, ap, ◌∙◌, length,
  map,
}
use mathlib.Core.List.{append_assoc, append-nil}
use codeng.Workflow.Data.{Text}
use codeng.Patch.Data.{NeedleItem, deletion}
use codeng.Patch.Reverse.{needle}
use codeng.Patch.Chunk.{
  replace_from, Progress, emit_insertions, emit_deletions, emit_tail, all_done, pass_group,
  emit_group, fresh_progress,
}
use codeng.Patch.Emit.{
  result, prefix, result-after, IsPast, replace_from-past, replace_from-insertion,
}
use codeng.Patch.Script.{kept, changed, Script, behind, items_of, edits_of, old_side, new_side}

unfoldable pub future : ℕ → Script → List Progress
unfolding edits_of
future j bs = map fresh_progress (edits_of j bs)

le-behind : (ds : List Text) (j : ℕ) → j ≤ behind ds j
le-behind [] j = omega arith
le-behind (d ∷ ds) j = omega (arith, le-behind ds (suc j))

-- edits at later indices wait
emit_insertions-future :
    (bs : Script) (j k : ℕ) → j < k → emit_insertions j (future k bs) ≡ ([], future k bs)
unfolding emit_insertions edits_of future
emit_insertions-future [] j k h = refl
emit_insertions-future (kept t ∷ bs) j k h = emit_insertions-future bs j (suc k) (omega arith)
emit_insertions-future (changed ds added ∷ bs) j k h =
    rw (emit_insertions-future bs j (behind ds k) (omega (arith, le-behind ds k))) (ground arith)

emit_deletions-future :
    (bs : Script) (j k : ℕ) → j < k → emit_deletions j (future k bs) ≡ ([], future k bs)
unfolding emit_deletions edits_of future
emit_deletions-future [] j k h = refl
emit_deletions-future (kept t ∷ bs) j k h = emit_deletions-future bs j (suc k) (omega arith)
emit_deletions-future (changed ds added ∷ bs) j k h =
    rw (emit_deletions-future bs j (behind ds k) (omega (arith, le-behind ds k))) (ground arith)

-- an edit that deletes, after some of its deletions
abbrev midway : ℕ → ℕ → ℕ → List Text → Progress
midway start count consumed added = record {
  edit = record { start_pat_index = start; del_count = count; additions = added };
  consumed = consumed;
  inserted = false;
}

-- what a script gives behind an index
unfoldable pub Leaves : ℕ → Script → List Text → Type 0
unfolding items_of old_side new_side future
Leaves j bs post =
    result (replace_from j (items_of bs) (old_side bs ++ post) (future j bs)) ≡ some (new_side bs)

emit_insertions-midway :
    (j start count k : ℕ) (added : List Text) (ps : List Progress)
    → 0 < count
    → emit_insertions j (midway start count k added ∷ ps)
      ≡ pass_group (midway start count k added) (emit_insertions j ps)
unfolding emit_insertions
emit_insertions-midway j start count k added ps h = ground arith

emit_deletions-more :
    (j start count k : ℕ) (added : List Text) (ps : List Progress)
    → j ≡ start + k
    → k + 1 < count
    → emit_deletions j (midway start count k added ∷ ps)
      ≡ pass_group (midway start count (k + 1) added) (emit_deletions j ps)
unfolding emit_deletions
emit_deletions-more j start count k added ps at h = ground arith

-- an edit whose deletions are all met
abbrev finished : ℕ → ℕ → ℕ → List Text → Progress
finished start count k added = record (midway start count k added) { inserted = true }

emit_deletions-last :
    (j start count k : ℕ) (added : List Text) (ps : List Progress)
    → j ≡ start + k
    → k + 1 ≡ count
    → emit_deletions j (midway start count k added ∷ ps)
      ≡ emit_group (midway start count (k + 1) added) (emit_deletions j ps)
unfolding emit_deletions
emit_deletions-last j start count k added ps at h = ground arith

delete_one :
    (xs : List NeedleItem) (ls : List Text) (d : Text) (j : ℕ) (ps qs : List Progress)
    (added : List Text)
    → emit_insertions j ps ≡ ([], ps)
    → emit_deletions j ps ≡ (added, qs)
    → result (replace_from j (needle deletion d ∷ xs) (d ∷ ls) ps)
      ≡ prefix added (result (replace_from (suc j) xs ls qs))
unfolding replace_from
delete_one xs ls d j ps qs added a b =
    rw (a, b, replace_from) (result-after added (replace_from (suc j) xs ls qs))

delete_all :
    (ds : List Text) (d : Text) (j start count k : ℕ) (added : List Text) (bs : Script)
    (post : List Text)
    → j ≡ start + k
    → k + suc (length ds) ≡ count
    → Leaves (behind ds (suc j)) bs post
    → result (
        replace_from j
          (map (needle deletion) (d ∷ ds) ++ items_of bs)
          ((d ∷ ds) ++ (old_side bs ++ post))
          (midway start count k added ∷ future (behind ds (suc j)) bs))
      ≡ some (added ++ new_side bs)
unfolding Leaves
delete_all [] d j start count k added bs post at size rest =
    let fut = future (suc j) bs in
    let p = midway start count k added in
    let q = finished start count (k + 1) added in
    let ps = p ∷ fut in
    let ins : emit_insertions j ps ≡ ([], ps) =
      emit_insertions-midway j start count k added fut (omega arith)
      ∙ ap (pass_group p) (emit_insertions-future bs j (suc j) (omega arith)) in
    let del : emit_deletions j ps ≡ (added ++ [], q ∷ fut) =
      emit_deletions-last j start count k added fut at (omega arith)
      ∙ ap (emit_group (midway start count (k + 1) added))
          (emit_deletions-future bs j (suc j) (omega arith)) in
    let past : IsPast (suc j) q = record {
      over = omega arith;
      met = omega arith;
      inserted = refl;
    } in
    delete_one (items_of bs) (old_side bs ++ post) d j ps (q ∷ fut) (added ++ []) ins del
    ∙ ap
        (λ l.
          prefix l (result (replace_from (suc j) (items_of bs) (old_side bs ++ post) (q ∷ fut))))
        (append-nil added)
    ∙ ap (prefix added)
        (replace_from-past (items_of bs) (suc j) (old_side bs ++ post) q fut past ∙ rest)
delete_all (e ∷ ds) d j start count k added bs post at size rest =
    let fut = future (behind ds (suc (suc j))) bs in
    let xs = map (needle deletion) (e ∷ ds) ++ items_of bs in
    let ls = (e ∷ ds) ++ (old_side bs ++ post) in
    let ps = midway start count k added ∷ fut in
    let qs = midway start count (k + 1) added ∷ fut in
    let ins : emit_insertions j ps ≡ ([], ps) =
      emit_insertions-midway j start count k added fut (omega arith)
      ∙ ap (pass_group (midway start count k added)) (
          emit_insertions-future bs j (behind ds (suc (suc j)))
            (omega (arith, le-behind ds (suc (suc j))))) in
    let del : emit_deletions j ps ≡ ([], qs) =
      emit_deletions-more j start count k added fut at (omega arith)
      ∙ ap (pass_group (midway start count (k + 1) added)) (
          emit_deletions-future bs j (behind ds (suc (suc j)))
            (omega (arith, le-behind ds (suc (suc j))))) in
    delete_one xs ls d j ps qs [] ins del
    ∙ ap (prefix [])
        (delete_all ds e (suc j) start count (k + 1) added bs post (omega arith) (omega arith) rest)

pub script-Leaves : (bs : Script) (j : ℕ) (post : List Text) → Leaves j bs post
unfolding Leaves items_of old_side new_side future edits_of replace_from emit_tail all_done
script-Leaves [] j post = refl
script-Leaves (kept t ∷ bs) j post =
    rw (emit_insertions-future bs j (suc j) (omega arith), replace_from)
      (result-after (t ∷ [])
          (replace_from (suc j) (items_of bs) (old_side bs ++ post) (future (suc j) bs))
        ∙ ap (prefix (t ∷ [])) (script-Leaves bs (suc j) post))
script-Leaves (changed [] added ∷ bs) j post =
    replace_from-insertion (items_of bs) j (old_side bs ++ post) added (future j bs)
    ∙ ap (prefix added) (script-Leaves bs j post)
script-Leaves (changed (d ∷ ds) added ∷ bs) j post =
    let ps = future j (changed (d ∷ ds) added ∷ bs) in
    let xs = map (needle deletion) (d ∷ ds) ++ items_of bs in
    ap (λ ls. result (replace_from j xs (d ∷ ls) ps)) (append_assoc ds (old_side bs) post)
    ∙ delete_all ds d j j (suc (length ds)) 0 added bs post (omega arith) (omega arith)
        (script-Leaves bs (behind ds (suc j)) post)
