-- ===== src/Patch/Build.antt =====
-- `build_commits`: the change of each file.
use codeng.Prelude.{
  Bool, true, false, none, some, List, [], ◌∷◌, ◌++◌, if◌then◌else◌, ◌==◌, is_empty, last?, reverse,
}
use codeng.Prelude.Texts
use codeng.Prelude.Strings.{splitlines, join_lines}
use codeng.Workflow.Data.{Text}
use codeng.Patch.Data.{
  ActionType, add, update, PatchAction, Patch, PatchError, FileChange, Commit, FileApplyStatus,
  create, partial_update, no_change_lines, not_loaded, out_of_order,
}
use codeng.Patch.Effective.{error_of, effective_actions, added_lines}
use codeng.Patch.Locate.{
  Placed, nothing_located, LocateState, locate_chunks, sort_located, starts_fall, overlap_errors,
  apply_located,
}

abbrev pub Changes : Type 0
Changes = List (Text × FileChange)

pub record BuildState : Type 0 where
  pub changes : Changes
  pub errors : List PatchError
  pub status_map : List (Text × FileApplyStatus)

abbrev report : List PatchError → BuildState → BuildState
report errors s = record s { errors = s.errors ++ errors }

abbrev pub change_file : Text → FileChange → FileApplyStatus → BuildState → BuildState
change_file path change status s = record s {
  changes = Texts.put path change s.changes;
  status_map = Texts.put path status s.status_map;
}

abbrev pub ends_with_newline : Text → Bool
ends_with_newline t = elim (last? t) [ none ↦ false | some c ↦ c == 10 ]

abbrev pub with_eol : Bool → Text → Text
with_eol true t = t ++ 10 ∷ []
with_eol false t = t

unfoldable pub new_content : Text → List Placed → Text
unfolding splitlines join_lines apply_located
new_content original located =
    with_eol (ends_with_newline original)
      (join_lines (apply_located 0 located (splitlines original)))

-- the change of an update, unless two of its blocks overlap
unfoldable pub change_update :
    Text → Text → PatchAction → Bool → List Placed → List PatchError → BuildState → BuildState
unfolding new_content
change_update path original a any_failed sorted (e ∷ es) s = report (e ∷ es) s
change_update path original a any_failed sorted [] s =
    change_file path
      (record {
        type = update;
        old_content = some original;
        new_content = some (new_content original sorted);
        move_path = a.move_path;
      })
      (if any_failed then partial_update else FileApplyStatus.update) s

unfoldable pub apply_update : Text → Text → PatchAction → LocateState → BuildState → BuildState
unfolding sort_located overlap_errors starts_fall change_update
apply_update path original a l s =
    let found = reverse l.located in
    let order = if starts_fall found then error_of out_of_order none path ∷ [] else [] in
    let sorted = sort_located found in
    change_update path original a l.any_failed sorted (overlap_errors path sorted)
      (report (l.errors ++ order) s)

unfoldable pub update_file : Text → PatchAction → Text → BuildState → BuildState
unfolding splitlines locate_chunks apply_update
update_file path a original s =
    let l = locate_chunks (splitlines original) path a.chunks nothing_located in
    if is_empty l.located then report l.errors s else apply_update path original a l s

unfoldable pub build_action : List (Text × Text) → Text → PatchAction → BuildState → BuildState
unfolding added_lines join_lines update_file
build_action files path a s = elim a.type [
  | add ↦
      change_file path
        (record {
          type = add;
          old_content = none;
          new_content = some (join_lines (added_lines a.chunks));
          move_path = none;
        })
        create s
  | ActionType.delete ↦
      change_file path
        (record {
          type = ActionType.delete;
          old_content = none;
          new_content = none;
          move_path = none;
        })
        FileApplyStatus.delete s
  | update ↦
      if is_empty a.chunks
      then report (error_of no_change_lines none path ∷ []) s
      else elim (Texts.get path files) [
        | none ↦ report (error_of not_loaded none path ∷ []) s
        | some original ↦ update_file path a original s
      ]
]

unfoldable pub build_actions :
    List (Text × Text) → List (Text × PatchAction) → BuildState → BuildState
unfolding build_action
build_actions files [] s = s
build_actions files ((path, a) ∷ rest) s = build_actions files rest (build_action files path a s)

pub record Built : Type 0 where
  pub commits : List Commit
  pub errors : List PatchError
  pub status_map : List (Text × FileApplyStatus)

abbrev pub no_changes : BuildState
no_changes = record { changes = []; errors = []; status_map = [] }

abbrev pub commits_of : Changes → List Commit
commits_of [] = []
commits_of (c ∷ cs) = (c ∷ cs) ∷ []

abbrev built : BuildState → Built
built s = record { commits = commits_of s.changes; errors = s.errors; status_map = s.status_map }

-- conflicts between the actions of a path leave everything as it is
unfoldable pub build_commits : Patch → List (Text × Text) → Built
unfolding effective_actions build_actions
build_commits patch files =
    let (actions, errors) = effective_actions patch in
    elim errors [
      | e ∷ es ↦ record { commits = []; errors = e ∷ es; status_map = [] }
      | [] ↦ built (build_actions files actions no_changes)
    ]
