-- ===== src/Patch/Apply.antt =====
-- `load_files`, `apply_commits`, `process_patch` and `_reverse_patch`. The functions that read,
-- write and delete a file are parameters; a call that raises may have changed the files.
use codeng.Prelude.{
  ◌&&◌, Bool, true, false, Option, none, some, List, [], ◌∷◌, ◌++◌, ◌||◌, if◌then◌else◌, is_empty,
  map, not,
}
use codeng.Prelude.Texts
use codeng.Workflow.Data.{Text}
use codeng.Patch.Data.{
  ActionType, add, update, PatchAction, Patch, PatchError, FileChange, Commit, FileApplyStatus,
  is_update, read_failed, apply_failed,
}
use codeng.Patch.Reverse.{reverse_chunk}
use codeng.Patch.Section.{record_action}
use codeng.Patch.Parse.{parse_v4a_patch}
use codeng.Patch.Effective.{error_of}
use codeng.Patch.Build.{build_commits}

-- the functions for files, over the state of the disk; `false` is an exception
pub record FileSystem (Disk : Type 0) : Type 0 where
  pub open_fn : Text → Disk → Option Text
  pub write_fn : Text → Text → Disk → Bool × Disk
  pub delete_fn : Text → Disk → Bool × Disk

unfoldable pub reversed_type : ActionType → ActionType
reversed_type add = ActionType.delete
reversed_type ActionType.delete = add
reversed_type update = update

-- `action.move_path or path`
abbrev or_path : Option Text → Text → Text
or_path none path = path
or_path (some []) path = path
or_path (some (c ∷ cs)) path = c ∷ cs

abbrev reversed_path : Text → PatchAction → Text
reversed_path path a = elim (is_update a.type) [
  | true ↦ elim a.move_path [ none ↦ path | some target ↦ target ]
  | false ↦ or_path a.move_path path
]

abbrev reversed_move : Text → PatchAction → Option Text
reversed_move path a = elim (is_update a.type) [
  | true ↦ elim a.move_path [ none ↦ none | some target ↦ some path ]
  | false ↦ a.move_path
]

unfoldable pub reverse_action : Text → PatchAction → PatchAction
unfolding reversed_type reverse_chunk
reverse_action path a = record {
  type = reversed_type a.type;
  chunks = map reverse_chunk a.chunks;
  move_path = reversed_move path a;
}

unfoldable pub reverse_actions : Text → List PatchAction → Patch → Patch
unfolding reverse_action record_action
reverse_actions path [] patch = patch
reverse_actions path (a ∷ rest) patch =
    reverse_actions path rest (record_action (reversed_path path a) (reverse_action path a) patch)

unfoldable pub reverse_into : Patch → Patch → Patch
unfolding reverse_actions
reverse_into [] patch = patch
reverse_into ((path, actions) ∷ rest) patch = reverse_into rest (reverse_actions path actions patch)

unfoldable pub reverse_patch : Patch → Patch
unfolding reverse_into
reverse_patch patch = reverse_into patch []

-- the paths that have an update
abbrev has_update : List PatchAction → Bool
has_update [] = false
has_update (a ∷ rest) = is_update a.type || has_update rest

unfoldable pub update_paths : Patch → List Text
update_paths [] = []
update_paths ((path, actions) ∷ rest) =
    let more = update_paths rest in if has_update actions then path ∷ more else more

module _ {Disk : Type 0} (fs : FileSystem Disk) where
  abbrev Loaded : Type 0
  Loaded = List (Text × Text) × List PatchError

  unfoldable pub load_files : List Text → Disk → Loaded → Loaded
  load_files [] disk loaded = loaded
  load_files (path ∷ paths) disk (files, errors) =
      load_files paths disk (elim (fs.open_fn path disk) [
        | some content ↦ (Texts.put path content files, errors)
        | none ↦ (files, errors ++ error_of read_failed none path ∷ [])
      ])

  abbrev or_empty : Option Text → Text
  or_empty none = []
  or_empty (some t) = t

  -- a file that moves is written first and then deleted where it was
  unfoldable pub write_change : Text → FileChange → Disk → Bool × Disk
  write_change path c disk =
      let (written, disk1) = fs.write_fn (or_path c.move_path path) (or_empty c.new_content) disk in
      if written
      then (if is_update c.type && moved c.move_path
          then fs.delete_fn path disk1
          else (true, disk1))
      else (false, disk1)
    where
      moved : Option Text → Bool
      moved none = false
      moved (some t) = not (is_empty t)

  unfoldable pub apply_change : Text → FileChange → Disk → Bool × Disk
  unfolding write_change
  apply_change path c disk = elim c.type [
    | ActionType.delete ↦ fs.delete_fn path disk
    | _ ↦ write_change path c disk
  ]

  -- all changes are tried, and each that fails is reported
  unfoldable pub apply_changes : Commit → Disk → List PatchError × Disk
  unfolding apply_change
  apply_changes [] disk = ([], disk)
  apply_changes ((path, c) ∷ rest) disk =
      let (done, disk1) = apply_change path c disk in
      let (errors, disk2) = apply_changes rest disk1 in
      (if done then errors else error_of apply_failed none path ∷ errors, disk2)

  unfoldable pub apply_commits : List Commit → Disk → List PatchError × Disk
  unfolding apply_changes
  apply_commits [] disk = ([], disk)
  apply_commits (c ∷ cs) disk =
      let (errors, disk1) = apply_changes c disk in
      let (more, disk2) = apply_commits cs disk1 in (errors ++ more, disk2)

  pub record Processed : Type 0 where
    pub status_map : List (Text × FileApplyStatus)
    pub errors : List PatchError
    pub disk : Disk

  -- A patch with errors is not applied. A file that cannot be read stops all of it.
  unfoldable pub apply_patch : Patch → Disk → Processed
  unfolding load_files update_paths build_commits apply_commits
  apply_patch patch disk =
      let (files, read_errors) = load_files (update_paths patch) disk ([], []) in
      elim read_errors [
        | e ∷ es ↦ record { status_map = []; errors = e ∷ es; disk = disk }
        | [] ↦
            let b = build_commits patch files in
            let (apply_errors, disk1) = apply_commits b.commits disk in
            record { status_map = b.status_map; errors = b.errors ++ apply_errors; disk = disk1 }
      ]

  unfoldable pub process_patch : Text → Bool → Disk → Processed
  unfolding parse_v4a_patch apply_patch reverse_patch
  process_patch text reverse disk =
      let (patch, errors) = parse_v4a_patch text in
      elim errors [
        | e ∷ es ↦ record { status_map = []; errors = e ∷ es; disk = disk }
        | [] ↦ apply_patch (if reverse then reverse_patch patch else patch) disk
      ]
