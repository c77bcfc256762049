-- ===== src/Patch/Effective.antt =====
-- `build_commits`: the actions of each path become one.
use codeng.Prelude.{
  ℕ, Bool, true, false, ◌&&◌, not, Option, none, some, List, [], ◌∷◌, ◌++◌, if◌then◌else◌, is_empty,
}
use codeng.Workflow.Data.{Text}
use codeng.Patch.Data.{
  ActionType, update, EditGroup, Chunk, PatchAction, Patch, PatchError, ErrorKind, is_add,
  is_update, is_delete, multiple_add, multiple_delete, update_and_add, add_before_delete,
  delete_and_update,
}

abbrev pub error_of : ErrorKind → Option ℕ → Text → PatchError
error_of kind line path = record { kind = kind; line = line; filename = some path }

-- the actions of one type
unfoldable pub of_type : (ActionType → Bool) → List PatchAction → List PatchAction
of_type p [] = []
of_type p (a ∷ acts) = let rest = of_type p acts in if p a.type then a ∷ rest else rest

-- whether the first action of the one type stands behind the first of the other
unfoldable pub first_is : (ActionType → Bool) → (ActionType → Bool) → List PatchAction → Bool
first_is p q [] = false
first_is p q (a ∷ acts) =
    let rest = first_is p q acts in if p a.type then true else if q a.type then false else rest

unfoldable pub merged_chunks : List PatchAction → List Chunk
merged_chunks [] = []
merged_chunks (a ∷ acts) = a.chunks ++ merged_chunks acts

-- a path that is not empty
abbrev truthy : Option Text → Bool
truthy none = false
truthy (some t) = not (is_empty t)

unfoldable pub last_move_path : List PatchAction → Option Text
last_move_path [] = none
last_move_path (a ∷ acts) = elim (last_move_path acts) [
  | some t ↦ some t
  | none ↦ if truthy a.move_path then a.move_path else none
]

abbrev pub merge_updates : List PatchAction → PatchAction
merge_updates acts = record {
  type = update;
  chunks = merged_chunks acts;
  move_path = last_move_path acts;
}

pub data Effective : Type 0 where
  conflict : ErrorKind → Effective
  action : PatchAction → Effective
  nothing : Effective

abbrev two_or_more {ℓ} : {A : Type ℓ} → List A → Bool
two_or_more (x ∷ y ∷ _) = true
two_or_more _ = false

abbrev create_action :
    PatchAction → List PatchAction → List PatchAction → List PatchAction → Effective
create_action a deletes updates acts =
    if not (is_empty updates)
    then conflict update_and_add
    else if not (is_empty deletes) && first_is is_add is_delete acts
    then conflict add_before_delete
    else action a

abbrev delete_action : PatchAction → List PatchAction → Effective
delete_action d updates = if not (is_empty updates) then conflict delete_and_update else action d

abbrev update_action : List PatchAction → Effective
update_action [] = nothing
update_action (u ∷ us) = action (merge_updates (u ∷ us))

abbrev choose_action :
    List PatchAction → List PatchAction → List PatchAction → List PatchAction → Effective
choose_action (a ∷ _) deletes updates acts = create_action a deletes updates acts
choose_action [] (d ∷ _) updates acts = delete_action d updates
choose_action [] [] updates acts = update_action updates

-- one action for the actions of a path
unfoldable pub effective_action : List PatchAction → Effective
unfolding of_type first_is merged_chunks last_move_path
effective_action acts =
    let creates = of_type is_add acts in
    let deletes = of_type is_delete acts in
    if two_or_more creates
    then conflict multiple_add
    else if two_or_more deletes
    then conflict multiple_delete
    else choose_action creates deletes (of_type is_update acts) acts

abbrev Actions : Type 0
Actions = List (Text × PatchAction) × List PatchError

abbrev add_effective : Text → Effective → Actions → Actions
add_effective path (conflict kind) (actions, errors) = (actions, error_of kind none path ∷ errors)
add_effective path (action a) (actions, errors) = ((path, a) ∷ actions, errors)
add_effective path nothing rest = rest

unfoldable pub effective_actions : Patch → Actions
unfolding effective_action
effective_actions [] = ([], [])
effective_actions ((path, acts) ∷ rest) =
    add_effective path (effective_action acts) (effective_actions rest)

-- the lines that an Add section adds
unfoldable pub edits_lines : List EditGroup → List Text
edits_lines [] = []
edits_lines (g ∷ gs) = g.additions ++ edits_lines gs

unfoldable pub added_lines : List Chunk → List Text
unfolding edits_lines
added_lines [] = []
added_lines (c ∷ cs) = edits_lines c.edits ++ added_lines cs
