-- ===== src/Patch/Line.antt =====
-- `parse_v4a_patch`, what a line of a patch is: a header of a file, or a line of a section.
use codeng.Prelude.{
  ℕ, Bool, false, ◌&&◌, ◌||◌, not, Option, none, some, [], ◌∷◌, ◌==◌, leb, if◌then◌else◌, is_empty,
}
use codeng.Prelude.Strings.{codes, is_whitespace, lstrip, strip, strip_prefix}
use codeng.Workflow.Data.{Text}
use codeng.Patch.Data.{ActionType, add, update}

-- FILE_HEADER_RE. The group for the path takes at least one character, so a header with one blank
-- behind the colon and nothing else is none, and one with more has a blank path.
unfoldable pub after_blanks : Text → Option Text
unfolding lstrip
after_blanks [] = none
after_blanks (c ∷ cs) = if is_whitespace c then some (lstrip cs) else none

abbrev path_of : Text → Option Text
path_of [] = none
path_of (c ∷ cs) = if is_whitespace c && not (is_empty cs) then some (strip cs) else none

unfoldable pub header_path : Text → Option Text
unfolding after_blanks strip strip_prefix
header_path rest = elim (after_blanks rest) [
  | none ↦ none
  | some r ↦ elim (strip_prefix (codes "File:") r) [ none ↦ none | some p ↦ path_of p ]
]

abbrev header_of : ActionType → Text → Option (ActionType × Text)
header_of type rest = elim (header_path rest) [ none ↦ none | some path ↦ some (type, path) ]

unfoldable pub action_word : Text → Option (ActionType × Text)
unfolding header_path strip_prefix
action_word t = elim (strip_prefix (codes "Add") t) [
  | some rest ↦ header_of add rest
  | none ↦ elim (strip_prefix (codes "Update") t) [
    | some rest ↦ header_of update rest
    | none ↦ elim (strip_prefix (codes "Delete") t) [
      | some rest ↦ header_of ActionType.delete rest
      | none ↦ none
    ]
  ]
]

unfoldable pub file_header : Text → Option (ActionType × Text)
unfolding action_word after_blanks strip_prefix
file_header line = elim (strip_prefix (codes "***") line) [
  | none ↦ none
  | some rest ↦ elim (after_blanks rest) [ none ↦ none | some word ↦ action_word word ]
]

abbrev is_letter : ℕ → Bool
is_letter c = (leb b'A' c && leb c b'Z') || (leb b'a' c && leb c b'z')

abbrev is_slash : ℕ → Bool
is_slash c = c == b'/' || c == 92

abbrev has_drive : Text → Bool
has_drive (c ∷ d ∷ s ∷ _) = is_letter c && d == b':' && is_slash s
has_drive _ = false

-- The last test of the code, that the normalized path is not absolute, holds of every path that
-- does not begin with a slash.
unfoldable pub is_relative_path : Text → Bool
is_relative_path [] = false
is_relative_path (c ∷ cs) = not (is_slash c) && not (has_drive (c ∷ cs))

abbrev without_blank : Text → Text
without_blank [] = []
without_blank (c ∷ cs) = if c == b' ' then cs else c ∷ cs

-- what a line of an Add or an Update section is
pub data LineKind : Type 0 where
  anchor_line deletion_line addition_line context_line : Text → LineKind
  other_line : LineKind

abbrev blank_or : LineKind → Text → LineKind
blank_or kind line = if is_empty (strip line) then context_line [] else kind

unfoldable pub line_kind : Text → LineKind
unfolding strip_prefix strip
line_kind line = elim (strip_prefix (codes "@@") line) [
  | some rest ↦ anchor_line (without_blank rest)
  | none ↦ elim (strip_prefix (codes "-") line) [
    | some rest ↦ deletion_line rest
    | none ↦ elim (strip_prefix (codes "+") line) [
      | some rest ↦ addition_line rest
      | none ↦ elim (strip_prefix (codes " ") line) [
        | some rest ↦ blank_or (context_line rest) line
        | none ↦ blank_or other_line line
      ]
    ]
  ]
]
