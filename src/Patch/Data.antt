-- ===== src/Patch/Data.antt =====
-- The data of a patch. Of an error the kind stands for the message; hints are not modelled.
use codeng.Prelude.{ℕ, Bool, true, false, Option, List}
use codeng.Workflow.Data.{Text}

pub data ActionType : Type 0 where
  add update delete : ActionType

pub data NeedleType : Type 0 where
  anchor context deletion : NeedleType

pub record NeedleItem : Type 0 where
  pub type : NeedleType
  pub text : Text

-- an edit at an index of the pattern, which is the items without the anchors: additions behind
-- `del_count` deleted lines
pub record EditGroup : Type 0 where
  pub start_pat_index : ℕ
  pub del_count : ℕ
  pub additions : List Text

pub record Chunk : Type 0 where
  pub items : List NeedleItem
  pub edits : List EditGroup
  pub start_line : Option ℕ

pub record PatchAction : Type 0 where
  pub type : ActionType
  pub chunks : List Chunk
  pub move_path : Option Text

-- the actions of each path
abbrev pub Patch : Type 0
Patch = List (Text × List PatchAction)

pub data ErrorKind : Type 0 where
  missing_begin missing_end multiple_begin no_end_after_begin multiple_end : ErrorKind
  not_relative move_outside_update move_after_changes duplicate_move : ErrorKind
  delete_with_content add_with_context invalid_line : ErrorKind
  read_failed multiple_add multiple_delete update_and_add add_before_delete : ErrorKind
  delete_and_update no_change_lines not_loaded not_located out_of_order overlapping : ErrorKind
  apply_failed : ErrorKind

pub record PatchError : Type 0 where
  pub kind : ErrorKind
  pub line : Option ℕ
  pub filename : Option Text

pub data FileApplyStatus : Type 0 where
  create update partial_update delete : FileApplyStatus

pub record FileChange : Type 0 where
  pub type : ActionType
  pub old_content : Option Text
  pub new_content : Option Text
  pub move_path : Option Text

-- the changes of each path
abbrev pub Commit : Type 0
Commit = List (Text × FileChange)

abbrev pub is_anchor : NeedleType → Bool
is_anchor anchor = true
is_anchor _ = false

abbrev pub is_context : NeedleType → Bool
is_context context = true
is_context _ = false

abbrev pub is_deletion : NeedleType → Bool
is_deletion deletion = true
is_deletion _ = false

abbrev pub is_add : ActionType → Bool
is_add add = true
is_add _ = false

abbrev pub is_update : ActionType → Bool
is_update update = true
is_update _ = false

abbrev pub is_delete : ActionType → Bool
is_delete delete = true
is_delete _ = false
