-- ===== src/Patch/Pushed.antt =====
-- What the lines of a script make of the chunk that is open.
use codeng.Prelude.{
  map, ℕ, suc, ◌+◌, ◌≡◌, refl, arith, ap, ◌∙◌, sym, Bool, true, false, List, [], ◌∷◌, ◌++◌, length,
}
use mathlib.Core.List.{append_assoc, append-nil}
use codeng.Workflow.Data.{Text}
use codeng.Patch.Data.{NeedleItem, EditGroup, context, deletion}
use codeng.Patch.Reverse.{needle}
use codeng.Patch.Section.{OpenChunk, on_last_edit, push_deletion, push_addition, push_context}
use codeng.Patch.Script.{kept, changed, Script, behind, items_of, edits_of}

abbrev pub push_deletions : List Text → OpenChunk → OpenChunk
push_deletions [] o = o
push_deletions (d ∷ ds) o = push_deletions ds (push_deletion d o)

abbrev pub push_additions : List Text → OpenChunk → OpenChunk
push_additions [] o = o
push_additions (a ∷ more) o = push_additions more (push_addition a o)

abbrev pub push_script : Script → OpenChunk → OpenChunk
push_script [] o = o
push_script (kept t ∷ bs) o = push_script bs (push_context t o)
push_script (changed ds added ∷ bs) o = push_script bs (push_additions added (push_deletions ds o))

-- an open chunk, with its items, its edits and the edit that is open
abbrev state_of : OpenChunk → List NeedleItem → List EditGroup → Bool → Bool → ℕ → OpenChunk
state_of o items edits has_mods in_group pat_index = record o {
  chunk = record o.chunk { items = items; edits = edits };
  has_mods = has_mods;
  in_group = in_group;
  pat_index = pat_index;
}

abbrev grown : OpenChunk → List NeedleItem → List EditGroup → Bool → ℕ → OpenChunk
grown o items edits in_group pat_index = state_of o items edits true in_group pat_index

abbrev group : ℕ → ℕ → List Text → EditGroup
group start count added = record { start_pat_index = start; del_count = count; additions = added }

on_last_edit-append :
    (f : EditGroup → EditGroup) (gs : List EditGroup) (g : EditGroup)
    → on_last_edit f (gs ++ g ∷ []) ≡ gs ++ f g ∷ []
unfolding on_last_edit
on_last_edit-append f [] g = refl
on_last_edit-append f (h ∷ []) g = refl
on_last_edit-append f (h ∷ k ∷ gs) g = ap (λ hs. h ∷ hs) (on_last_edit-append f (k ∷ gs) g)

push_deletions_lem :
    (ds : List Text) (o : OpenChunk) (items : List NeedleItem) (gs : List EditGroup)
    (start count j : ℕ) (added : List Text)
    → push_deletions ds (grown o items (gs ++ group start count added ∷ []) true j)
      ≡ grown o
          (items ++ map (needle deletion) ds)
          (gs ++ group start (count + length ds) added ∷ [])
          true
          (behind ds j)
unfolding push_deletion
push_deletions_lem [] o items gs start count j added =
    ap (λ xs. grown o xs (gs ++ group start count added ∷ []) true j) (sym (append-nil items))
    ∙ ap (λ n. grown o (items ++ []) (gs ++ group start n added ∷ []) true j) (omega arith)
push_deletions_lem (d ∷ ds) o items gs start count j added =
    let xs = items ++ needle deletion d ∷ [] in
    let more : List EditGroup → ℕ → OpenChunk = λ es k. push_deletions ds (grown o xs es true k) in
    let g = group start (count + 1) added in
    let one : (count + 1) + length ds ≡ count + suc (length ds) = omega arith in
    ap (λ es. more es (j + 1))
      (on_last_edit-append (λ h. record h { del_count = h.del_count + 1 }) gs
        (group start count added))
    ∙ ap (more (gs ++ g ∷ [])) (omega arith)
    ∙ push_deletions_lem ds o xs gs start (count + 1) (suc j) added
    ∙ ap
        (λ ys.
          grown o ys (gs ++ group start ((count + 1) + length ds) added ∷ []) true
            (behind ds (suc j)))
        (append_assoc items (needle deletion d ∷ []) (map (needle deletion) ds))
    ∙ ap
        (λ n.
          grown o (items ++ needle deletion d ∷ map (needle deletion) ds)
            (gs ++ group start n added ∷ []) true (behind ds (suc j)))
        one

push_additions_lem :
    (new : List Text) (o : OpenChunk) (items : List NeedleItem) (gs : List EditGroup)
    (start count j : ℕ) (added : List Text)
    → push_additions new (grown o items (gs ++ group start count added ∷ []) true j)
      ≡ grown o items (gs ++ group start count (added ++ new) ∷ []) true j
unfolding push_addition
push_additions_lem [] o items gs start count j added =
    ap (λ a. grown o items (gs ++ group start count a ∷ []) true j) (sym (append-nil added))
push_additions_lem (a ∷ new) o items gs start count j added =
    ap (λ es. push_additions new (grown o items es true j))
      (on_last_edit-append (λ g. record g { additions = g.additions ++ a ∷ [] }) gs
        (group start count added))
    ∙ push_additions_lem new o items gs start count j (added ++ a ∷ [])
    ∙ ap (λ as'. grown o items (gs ++ group start count as' ∷ []) true j)
        (append_assoc added (a ∷ []) new)

-- a change of a script opens an edit and fills it
abbrev pub Changes : List Text → List Text → Type 0
Changes [] [] = ⊥
Changes _ _ = Unit

push_changed :
    (ds added : List Text) (o : OpenChunk) (items : List NeedleItem) (gs : List EditGroup)
    (has_mods : Bool) (j : ℕ)
    → Changes ds added
    → push_additions added (push_deletions ds (state_of o items gs has_mods false j))
      ≡ grown o
          (items ++ map (needle deletion) ds)
          (gs ++ group j (length ds) added ∷ [])
          true
          (behind ds j)
unfolding push_deletion push_addition
push_changed [] [] o items gs has_mods j some_change = absurd some_change
push_changed [] (a ∷ added) o items gs has_mods j some_change =
    ap (λ es. push_additions added (grown o items es true j))
      (on_last_edit-append (λ g. record g { additions = g.additions ++ a ∷ [] }) gs (group j 0 []))
    ∙ push_additions_lem added o items gs j 0 j (a ∷ [])
    ∙ ap (λ xs. grown o xs (gs ++ group j 0 (a ∷ added) ∷ []) true j) (sym (append-nil items))
push_changed (d ∷ ds) added o items gs has_mods j some_change =
    let xs = items ++ needle deletion d ∷ [] in
    let more : List EditGroup → ℕ → OpenChunk =
      λ es k. push_additions added (push_deletions ds (grown o xs es true k)) in
    let count : 1 + length ds ≡ suc (length ds) = omega arith in
    ap (λ es. more es (j + 1))
      (on_last_edit-append (λ h. record h { del_count = h.del_count + 1 }) gs (group j 0 []))
    ∙ ap (more (gs ++ group j 1 [] ∷ [])) (omega arith)
    ∙ ap (push_additions added) (push_deletions_lem ds o xs gs j 1 (suc j) [])
    ∙ push_additions_lem added o (xs ++ map (needle deletion) ds) gs j (1 + length ds)
        (behind ds (suc j)) []
    ∙ ap (λ ys. grown o ys (gs ++ group j (1 + length ds) added ∷ []) true (behind ds (suc j)))
        (append_assoc items (needle deletion d ∷ []) (map (needle deletion) ds))
    ∙ ap
        (λ n.
          grown o (items ++ needle deletion d ∷ map (needle deletion) ds)
            (gs ++ group j n added ∷ []) true (behind ds (suc j)))
        count

-- two changes are not neighbours
abbrev StartsKept : Script → Type 0
StartsKept (changed ds added ∷ bs) = ⊥
StartsKept _ = Unit

unfoldable pub IsSeparated : Script → Type 0
IsSeparated [] = Unit
IsSeparated (kept t ∷ bs) = IsSeparated bs
IsSeparated (changed ds added ∷ bs) = Changes ds added × StartsKept bs × IsSeparated bs

abbrev Ready : Bool → Script → Type 0
Ready true bs = StartsKept bs
Ready false bs = Unit

pub push_script_lem :
    (bs : Script) (o : OpenChunk) (items : List NeedleItem) (gs : List EditGroup)
    (has_mods in_group : Bool) (j : ℕ)
    → Ready in_group bs
    → IsSeparated bs
    → (push_script bs (state_of o items gs has_mods in_group j)).chunk
      ≡ record o.chunk { items = items ++ items_of bs; edits = gs ++ edits_of j bs }
unfolding items_of edits_of push_context IsSeparated
push_script_lem [] o items gs has_mods in_group j ready sep =
    ap (λ xs. record o.chunk { items = xs; edits = gs }) (sym (append-nil items))
    ∙ ap (λ es. record o.chunk { items = items ++ []; edits = es }) (sym (append-nil gs))
push_script_lem (kept t ∷ bs) o items gs has_mods in_group j ready sep =
    ap
      (λ k.
        (push_script bs (state_of o (items ++ needle context t ∷ []) gs has_mods false k)).chunk)
      (omega arith)
    ∙ push_script_lem bs o (items ++ needle context t ∷ []) gs has_mods false (suc j) tt sep
    ∙ ap (λ xs. record o.chunk { items = xs; edits = gs ++ edits_of (suc j) bs })
        (append_assoc items (needle context t ∷ []) (items_of bs))
push_script_lem (changed ds added ∷ bs) o items gs has_mods true j ready sep = absurd ready
push_script_lem (changed ds added ∷ bs) o items gs has_mods false j ready (change, next, sep) =
    let g = group j (length ds) added in
    ap (λ p. (push_script bs p).chunk) (push_changed ds added o items gs has_mods j change)
    ∙ push_script_lem bs o (items ++ map (needle deletion) ds) (gs ++ g ∷ []) true true
        (behind ds j) next sep
    ∙ ap (λ xs. record o.chunk { items = xs; edits = (gs ++ g ∷ []) ++ edits_of (behind ds j) bs })
        (append_assoc items (map (needle deletion) ds) (items_of bs))
    ∙ ap
        (λ es. record o.chunk {
          items = items ++ (map (needle deletion) ds ++ items_of bs);
          edits = es;
        })
        (append_assoc gs (g ∷ []) (edits_of (behind ds j) bs))
