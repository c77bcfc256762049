-- ===== src/Patch/Parse.antt =====
-- `parse_v4a_patch`: the loop over the lines between the markers.
use codeng.Prelude.{
  ℕ, suc, ◌+◌, ◌-◌, Bool, true, false, ◌||◌, not, Option, none, some, List, [], ◌∷◌, ◌++◌, ◌==◌,
  ltb, if◌then◌else◌, is_empty, drop, take, keep,
}
use codeng.Prelude.Texts.{text_eq}
use codeng.Prelude.Strings.{codes, strip, splitlines, strip_prefix}
use codeng.Workflow.Data.{Text}
use codeng.Patch.Data.{
  ActionType, PatchAction, Patch, PatchError, ErrorKind, is_add, is_update, is_delete,
  missing_begin, missing_end, multiple_begin, no_end_after_begin, multiple_end, not_relative,
  move_outside_update, move_after_changes, duplicate_move, delete_with_content, invalid_line,
}
use codeng.Patch.Section.{
  ParseState, add_error, record_action, finish_chunk_if_any, with_chunk, push_deletion,
  push_addition, push_context,
}
use codeng.Patch.Line.{
  LineKind, anchor_line, deletion_line, addition_line, context_line, other_line, line_kind,
  file_header, is_relative_path,
}

unfoldable pub on_header : ℕ → ActionType → Text → ParseState → ParseState
unfolding finish_chunk_if_any record_action is_relative_path
on_header line type path s =
    let s1 = finish_chunk_if_any s in
    let patch : Patch = elim s1.section [
      | none ↦ s1.patch
      | some (p, a) ↦ record_action p a s1.patch
    ] in
    let s2 = record s1 { patch = patch; section = none; pending_anchors = []; open_chunk = none } in
    if is_relative_path path
    then record s2 { section = some (path, record { type = type; chunks = []; move_path = none }) }
    else add_error not_relative (some line) path s2

abbrev is_some {ℓ} : {A : Type ℓ} → Option A → Bool
is_some none = false
is_some (some a) = true

unfoldable pub on_move : ℕ → Text → Text → PatchAction → ParseState → ParseState
unfolding is_relative_path
on_move line target path a s =
    if not (is_update a.type)
    then add_error move_outside_update (some line) path s
    else if is_some s.open_chunk || not (is_empty a.chunks)
    then add_error move_after_changes (some line) path s
    else if is_some a.move_path
    then add_error duplicate_move (some line) path s
    else if is_relative_path target
    then record s { section = some (path, record a { move_path = some target }) }
    else add_error not_relative (some line) path s

unfoldable pub on_content : ℕ → Text → LineKind → Text → PatchAction → ParseState → ParseState
unfolding finish_chunk_if_any push_deletion push_addition push_context
on_content n line (anchor_line label) path a s =
    let s1 = finish_chunk_if_any s in
    record s1 { pending_anchors = s1.pending_anchors ++ label ∷ [] }
on_content n line (deletion_line rest) path a s = with_chunk n (push_deletion rest) s
on_content n line (addition_line rest) path a s = with_chunk n (push_addition rest) s
on_content n line (context_line rest) path a s = with_chunk n (push_context rest) s
on_content n line other_line path a s =
    if is_add a.type
    then with_chunk n (push_addition line) s
    else add_error invalid_line (some n) path s

-- a line inside a section
unfoldable pub on_line : ℕ → Text → Text → PatchAction → ParseState → ParseState
unfolding strip_prefix on_move strip on_content line_kind
on_line n line path a s = elim (strip_prefix (codes "*** Move to:") line) [
  | some rest ↦ on_move n (strip rest) path a s
  | none ↦ elim (is_delete a.type) [
    | true ↦ if is_empty (strip line) then s else add_error delete_with_content (some n) path s
    | false ↦ on_content n line (line_kind line) path a s
  ]
]

unfoldable pub parse_line : ℕ → Text → ParseState → ParseState
unfolding file_header on_header on_line
parse_line n line s = elim (file_header line) [
  | some (type, path) ↦ on_header n type path s
  | none ↦ elim s.section [ none ↦ s | some (path, a) ↦ on_line n line path a s ]
]

unfoldable pub parse_lines : ℕ → List Text → ParseState → ParseState
unfolding parse_line
parse_lines n [] s = s
parse_lines n (line ∷ lines) s = parse_lines (suc n) lines (parse_line n line s)

-- the lines that are a marker
unfoldable pub marker_indices : Text → ℕ → List Text → List ℕ
unfolding strip
marker_indices marker i [] = []
marker_indices marker i (line ∷ lines) =
    let rest = marker_indices marker (suc i) lines in
    if text_eq (strip line) marker then i ∷ rest else rest

abbrev pub start_state : List PatchError → ParseState
start_state errors = record {
  patch = [];
  errors = errors;
  section = none;
  pending_anchors = [];
  open_chunk = none;
}

unfoldable pub finish_patch : ParseState → Patch × List PatchError
unfolding finish_chunk_if_any record_action
finish_patch s =
    let s1 = finish_chunk_if_any s in
    (
      elim s1.section [ none ↦ s1.patch | some (path, a) ↦ record_action path a s1.patch ],
      s1.errors,
    )

abbrev only_error : ErrorKind → Option ℕ → Patch × List PatchError
only_error kind line = ([], record { kind = kind; line = line; filename = none } ∷ [])

-- the first extra marker, where there is more than one
abbrev extra_ends : ℕ → List ℕ → List PatchError
extra_ends first ends = elim (keep (λ i. not (i == first)) ends) [
  | [] ↦ []
  | i ∷ _ ↦ record { kind = multiple_end; line = some (i + 1); filename = none } ∷ []
]

-- the section between the first marker and the first end behind it
unfoldable pub parse_between : List Text → ℕ → List ℕ → List ℕ → Patch × List PatchError
unfolding parse_lines finish_patch
parse_between lines begin ends [] = only_error no_end_after_begin (some (begin + 1))
parse_between lines begin ends (first ∷ _) = finish_patch (
    parse_lines (begin + 2) (take (first - (begin + 1)) (drop (begin + 1) lines))
      (start_state (extra_ends first ends)))

unfoldable pub parse_markers : List Text → List ℕ → List ℕ → Patch × List PatchError
unfolding parse_between
parse_markers lines [] ends = only_error missing_begin none
parse_markers lines (b ∷ bs) [] = only_error missing_end none
parse_markers lines (b ∷ c ∷ bs) (e ∷ es) = only_error multiple_begin (some (c + 1))
parse_markers lines (b ∷ []) (e ∷ es) =
    parse_between lines b (e ∷ es) (keep (λ i. ltb b i) (e ∷ es))

unfoldable pub parse_v4a_patch : Text → Patch × List PatchError
unfolding splitlines marker_indices parse_markers
parse_v4a_patch text =
    let lines = splitlines text in
    parse_markers lines (marker_indices (codes "*** Begin Patch") 0 lines)
      (marker_indices (codes "*** End Patch") 0 lines)
