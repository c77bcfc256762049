-- ===== src/Patch/Report.antt =====
-- The statuses that `process_patch` reports, and the disk behind it.
use codeng.Prelude.{
  List-cases, ap, reverse, Bool, none, List, [], ◌∷◌, ◌++◌, ◌≡◌, refl, arith, is_empty, Bool-cases,
  Option-cases, inl, inr, if◌then◌else◌,
}
use codeng.Prelude.Texts
use codeng.Prelude.Strings.{splitlines}
use codeng.Workflow.Data.{Text}
use codeng.Patch.Data.{
  out_of_order, out_of_order, PatchError, Patch, PatchAction, FileChange, FileApplyStatus,
  ActionType, add, update,
}
use codeng.Patch.Effective.{error_of, effective_actions}
use codeng.Patch.Locate.{
  Placed, starts_fall, LocateState, overlap_errors, sort_located, locate_chunks, nothing_located,
}
use codeng.Patch.Build.{
  no_changes, commits_of, change_update, BuildState, build_action, build_actions, build_commits,
  update_file, apply_update, change_file,
}
use codeng.Patch.Parse.{parse_v4a_patch}
use codeng.Patch.Apply.{
  reverse_patch, load_files, update_paths, FileSystem, apply_commits, apply_patch, process_patch,
}

-- the changes and the statuses are of the same paths, in the same order
abbrev IsReported : BuildState → Type 0
unfolding Texts.keys
IsReported s = Texts.keys s.status_map ≡ Texts.keys s.changes

keys-put {ℓ ℓ'} :
    {V : Type ℓ} {W : Type ℓ'} (k : Text) (v : V) (w : W) (d : List (Text × V))
    (e : List (Text × W))
    → Texts.keys d ≡ Texts.keys e
    → Texts.keys (Texts.put k v d) ≡ Texts.keys (Texts.put k w e)
unfolding Texts.put Texts.keys
keys-put k v w [] [] h = refl
keys-put k v w [] ((j, y) ∷ e) h = ground arith
keys-put k v w ((i, x) ∷ d) [] h = ground arith
keys-put k v w ((i, x) ∷ d) ((j, y) ∷ e) h = ground (arith, keys-put k v w d e)

change_file-IsReported :
    (path : Text) (c : FileChange) (st : FileApplyStatus) (s : BuildState)
    → IsReported s
    → IsReported (change_file path c st s)
unfolding IsReported
change_file-IsReported path c st s h = keys-put path st c s.status_map s.changes h

change_update-IsReported :
    (path original : Text) (a : PatchAction) (any_failed : Bool) (sorted : List Placed)
    (es : List PatchError) (s : BuildState)
    → IsReported s
    → IsReported (change_update path original a any_failed sorted es s)
unfolding change_update IsReported
change_update-IsReported path original a any_failed sorted [] s h =
    change_file-IsReported path _ _ s h
change_update-IsReported path original a any_failed sorted (e ∷ es) s h = h

apply_update-IsReported :
    (path original : Text) (a : PatchAction) (l : LocateState) (s : BuildState)
    → IsReported s
    → IsReported (apply_update path original a l s)
unfolding apply_update IsReported
apply_update-IsReported path original a l s h =
    let found = reverse l.located in
    let order = if starts_fall found then error_of out_of_order none path ∷ [] else [] in
    let sorted = sort_located found in
    change_update-IsReported path original a l.any_failed sorted (overlap_errors path sorted)
      (record s { errors = s.errors ++ (l.errors ++ order) }) h

update_file-IsReported :
    (path original : Text) (a : PatchAction) (s : BuildState)
    → IsReported s
    → IsReported (update_file path a original s)
unfolding update_file IsReported
update_file-IsReported path original a s h =
    let l = locate_chunks (splitlines original) path a.chunks nothing_located in
    elim (Bool-cases (is_empty l.located)) [
      | inl none_found ↦ rw (none_found, update_file) h
      | inr some_found ↦
          rw (some_found, update_file) (apply_update-IsReported path original a l s h)
    ]

build_action-IsReported :
    (files : List (Text × Text)) (path : Text) (a : PatchAction) (s : BuildState)
    → IsReported s
    → IsReported (build_action files path a s)
unfolding build_action IsReported
build_action-IsReported files path a s h =
    elim a.type as (λ t. IsReported (build_action files path (record a { type = t }) s)) [
      | add ↦ change_file-IsReported path _ _ s h
      | ActionType.delete ↦ change_file-IsReported path _ _ s h
      | update ↦ elim (Bool-cases (is_empty a.chunks)) [
        | inl unchanged ↦ rw (unchanged, build_action) h
        | inr changed ↦ elim (Option-cases (Texts.get path files)) [
          | inl missing ↦ rw (changed, missing, build_action) h
          | inr (original, found) ↦
              rw (changed, found, build_action)
                (update_file-IsReported path original (record a { type = update }) s h)
        ]
      ]
    ]

build_actions-IsReported :
    (files : List (Text × Text)) (actions : List (Text × PatchAction)) (s : BuildState)
    → IsReported s
    → IsReported (build_actions files actions s)
unfolding build_actions
build_actions-IsReported files [] s h = h
build_actions-IsReported files ((path, a) ∷ rest) s h =
    build_actions-IsReported files rest (build_action files path a s)
      (build_action-IsReported files path a s h)

keys-empty {ℓ ℓ'} :
    {V : Type ℓ} {W : Type ℓ'} (d : List (Text × V)) (e : List (Text × W))
    → Texts.keys d ≡ Texts.keys e
    → d ≡ []
    → e ≡ []
unfolding Texts.keys
keys-empty d [] h empty = refl
keys-empty [] ((j, y) ∷ e) h empty = ground arith
keys-empty ((i, x) ∷ d) ((j, y) ∷ e) h empty = ground arith

build_commits-unreported :
    (patch : Patch) (files : List (Text × Text))
    → (build_commits patch files).status_map ≡ []
    → (build_commits patch files).commits ≡ []
unfolding build_commits IsReported
build_commits-unreported patch files = elim (List-cases (effective_actions patch).1) [
  | inl fine ↦
      let s = build_actions files (effective_actions patch).0 no_changes in
      rw (fine, build_commits)
        (λ h. ap commits_of (
          keys-empty s.status_map s.changes
            (build_actions-IsReported files (effective_actions patch).0 no_changes refl) h))
  | inr (e, es, conflicts) ↦ rw (conflicts, build_commits) (λ h. refl)
]

module _ {Disk : Type 0} (fs : FileSystem Disk) where
  apply_patch-unreported :
      (patch : Patch) (disk : Disk)
      → (apply_patch fs patch disk).status_map ≡ []
      → (apply_patch fs patch disk).disk ≡ disk
  unfolding apply_patch apply_commits
  apply_patch-unreported patch disk =
      let loaded = load_files fs (update_paths patch) disk ([], []) in
      elim (List-cases loaded.1) [
        | inl read ↦
            rw (read, apply_patch)
              (λ h.
                ap (λ cs. (apply_commits fs cs disk).1) (build_commits-unreported patch loaded.0 h))
        | inr (e, es, unread) ↦ rw (unread, apply_patch) (λ h. refl)
      ]

  -- For any text of a patch, reversed or not, and any disk and file functions: if no status is
  -- reported for a file, the disk is what it was before.
  pub process_patch-unreported :
      (text : Text) (reverse : Bool) (disk : Disk)
      → (process_patch fs text reverse disk).status_map ≡ []
      → (process_patch fs text reverse disk).disk ≡ disk
  unfolding process_patch
  process_patch-unreported text reverse disk =
      let parsed = parse_v4a_patch text in
      elim (List-cases parsed.1) [
        | inl valid ↦
            rw (valid, process_patch)
              (apply_patch-unreported (if reverse then reverse_patch parsed.0 else parsed.0) disk)
        | inr (e, es, invalid) ↦ rw (invalid, process_patch) (λ h. refl)
      ]
