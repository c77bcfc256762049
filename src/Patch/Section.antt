-- ===== src/Patch/Section.antt =====
-- `parse_v4a_patch`, what it keeps: the open section, the open chunk and the anchors that wait. The
-- action of the open section is kept apart from those of the patch until the section ends; the
-- code appends it at its header.
use codeng.Prelude.{
  ℕ, ◌+◌, Bool, true, false, ◌&&◌, ◌||◌, not, Option, none, some, List, [], ◌∷◌, ◌++◌,
  if◌then◌else◌, map,
}
use codeng.Prelude.Texts
use codeng.Prelude.Texts.{text_eq}
use codeng.Workflow.Data.{Text}
use codeng.Patch.Data.{
  anchor, context, deletion, NeedleItem, EditGroup, Chunk, PatchAction, Patch, PatchError,
  ErrorKind, is_add, is_context, add_with_context,
}

-- the chunk that is open: whether it has changes, whether its last edit is open, and the size of
-- its pattern
pub record OpenChunk : Type 0 where
  pub chunk : Chunk
  pub has_mods : Bool
  pub in_group : Bool
  pub pat_index : ℕ

pub record ParseState : Type 0 where
  pub patch : Patch
  pub errors : List PatchError
  pub section : Option (Text × PatchAction)
  pub pending_anchors : List Text
  pub open_chunk : Option OpenChunk

abbrev pub add_error : ErrorKind → Option ℕ → Text → ParseState → ParseState
add_error kind line path s = record s {
  errors = s.errors ++ record { kind = kind; line = line; filename = some path } ∷ [];
}

-- `patch.actions.setdefault(path, []).append(action)`
abbrev pub actions_of : Text → Patch → List PatchAction
actions_of path patch = elim (Texts.get path patch) [ none ↦ [] | some actions ↦ actions ]

unfoldable pub record_action : Text → PatchAction → Patch → Patch
record_action path action patch = Texts.put path (actions_of path patch ++ action ∷ []) patch

abbrev pub has_context : List NeedleItem → Bool
has_context [] = false
has_context (x ∷ xs) = is_context x.type || has_context xs

unfoldable pub context_texts : List NeedleItem → List Text
context_texts [] = []
context_texts (x ∷ xs) =
    let rest = context_texts xs in if is_context x.type then x.text ∷ rest else rest

abbrev pub append_chunk : Chunk → PatchAction → PatchAction
append_chunk c a = record a { chunks = a.chunks ++ c ∷ [] }

-- the context of a file that is added is its content
abbrev pub content_chunk : Chunk → Chunk
content_chunk c = record c {
  edits =
      c.edits
      ++ record { start_pat_index = 0; del_count = 0; additions = context_texts c.items } ∷ [];
}

abbrev close_chunk : OpenChunk → Text → PatchAction → ParseState → ParseState
close_chunk o path a s =
    let closed = record s { section = some (path, append_chunk o.chunk a) } in
    if not o.has_mods
    then if is_add a.type && has_context o.chunk.items
      then record s { section = some (path, append_chunk (content_chunk o.chunk) a) }
      else s
    else if is_add a.type && has_context o.chunk.items
    then add_error add_with_context o.chunk.start_line path closed
    else closed

-- the anchors that wait are dropped where no chunk is open, and stay where one is
unfoldable pub finish_chunk_if_any : ParseState → ParseState
unfolding context_texts
finish_chunk_if_any s = elim s.open_chunk [
  | none ↦ record s { pending_anchors = [] }
  | some o ↦
      let s' = record s { open_chunk = none } in
      elim s.section [ none ↦ s' | some (path, a) ↦ close_chunk o path a s' ]
]

abbrev pub anchor_item : Text → NeedleItem
anchor_item label = record { type = anchor; text = label }

abbrev pub new_chunk : ℕ → List Text → OpenChunk
new_chunk line labels = record {
  chunk = record { items = map anchor_item labels; edits = []; start_line = some line };
  has_mods = false;
  in_group = false;
  pat_index = 0;
}

-- the chunk that is open, or a new one with the anchors that wait
abbrev pub with_chunk : ℕ → (OpenChunk → OpenChunk) → ParseState → ParseState
with_chunk line f s = elim s.open_chunk [
  | some o ↦ record s { open_chunk = some (f o) }
  | none ↦ record s {
    open_chunk = some (f (new_chunk line s.pending_anchors));
    pending_anchors = [];
  }
]

-- a change of the last edit
unfoldable pub on_last_edit : (EditGroup → EditGroup) → List EditGroup → List EditGroup
on_last_edit f [] = []
on_last_edit f (g ∷ []) = f g ∷ []
on_last_edit f (g ∷ h ∷ gs) = g ∷ on_last_edit f (h ∷ gs)

-- the edit that is open, or a new one
abbrev pub open_group : OpenChunk → List EditGroup
open_group o =
    if o.in_group
    then o.chunk.edits
    else o.chunk.edits
      ++ record { start_pat_index = o.pat_index; del_count = 0; additions = [] } ∷ []

unfoldable pub push_deletion : Text → OpenChunk → OpenChunk
unfolding on_last_edit
push_deletion line o = record {
  chunk = record o.chunk {
    items = o.chunk.items ++ record { type = deletion; text = line } ∷ [];
    edits = on_last_edit (λ g. record g { del_count = g.del_count + 1 }) (open_group o);
  };
  has_mods = true;
  in_group = true;
  pat_index = o.pat_index + 1;
}

unfoldable pub push_addition : Text → OpenChunk → OpenChunk
unfolding on_last_edit
push_addition line o = record {
  chunk = record o.chunk {
    edits = on_last_edit (λ g. record g { additions = g.additions ++ line ∷ [] }) (open_group o);
  };
  has_mods = true;
  in_group = true;
  pat_index = o.pat_index;
}

unfoldable pub push_context : Text → OpenChunk → OpenChunk
push_context line o = record {
  chunk = record o.chunk { items = o.chunk.items ++ record { type = context; text = line } ∷ [] };
  has_mods = o.has_mods;
  in_group = false;
  pat_index = o.pat_index + 1;
}
