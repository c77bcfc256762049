-- ===== src/Mcp/Naming.antt =====
-- src/vocode/mcp/naming.py.
use codeng.Prelude.{
  ℕ, Bool, false, not, ◌&&◌, ◌||◌, Option, none, some, [], ◌∷◌, ◌++◌, ◌==◌, leb, if◌then◌else◌,
  is_empty,
}
use codeng.Prelude.Strings.{codes, strip_prefix}
use codeng.Workflow.Data.{Text}

abbrev pub is_safe : ℕ → Bool
is_safe c =
    (leb b'A' c && leb c b'Z')
    || (leb b'a' c && leb c b'z')
    || (leb b'0' c && leb c b'9')
    || c == b'_'

-- each run of other characters becomes one underscore
unfoldable pub sub_unsafe : Bool → Text → Text
sub_unsafe in_run [] = []
sub_unsafe in_run (c ∷ cs) =
    let rest = sub_unsafe (not (is_safe c)) cs in
    if is_safe c then c ∷ rest else if in_run then rest else b'_' ∷ rest

unfoldable pub lstrip_underscores : Text → Text
lstrip_underscores [] = []
lstrip_underscores (c ∷ cs) = if c == b'_' then lstrip_underscores cs else c ∷ cs

unfoldable pub rstrip_underscores : Text → Text
rstrip_underscores [] = []
rstrip_underscores (c ∷ cs) =
    let rest = rstrip_underscores cs in if is_empty rest && c == b'_' then [] else c ∷ rest

abbrev pub or_tool : Text → Text
or_tool [] = codes "tool"
or_tool (c ∷ cs) = c ∷ cs

unfoldable pub normalize_segment : Text → Text
unfolding sub_unsafe lstrip_underscores rstrip_underscores
normalize_segment value = or_tool (rstrip_underscores (lstrip_underscores (sub_unsafe false value)))

pub record ToolRef : Type 0 where
  pub source_name : Text
  pub tool_name : Text

unfoldable pub normalize_tool_ref : Text → Text → ToolRef
unfolding normalize_segment
normalize_tool_ref source_name tool_name = record {
  source_name = normalize_segment source_name;
  tool_name = normalize_segment tool_name;
}

unfoldable pub build_internal_tool_name : Text → Text → Text
unfolding normalize_tool_ref
build_internal_tool_name source_name tool_name =
    let ref = normalize_tool_ref source_name tool_name in
    codes "mcp__" ++ (ref.source_name ++ b'_' ∷ b'_' ∷ ref.tool_name)

abbrev pub behind : ℕ → Option (Text × Text) → Option (Text × Text)
behind c none = none
behind c (some (before, after)) = some (c ∷ before, after)

-- `partition("__")`; `none` is a text without the separator
unfoldable pub partition : Text → Option (Text × Text)
partition [] = none
partition (c ∷ []) = none
partition (c ∷ d ∷ cs) =
    let rest = partition (d ∷ cs) in if c == b'_' && d == b'_' then some ([], cs) else behind c rest

abbrev pub tool_ref : Option (Text × Text) → Option ToolRef
tool_ref none = none
tool_ref (some (source_name, tool_name)) =
    if is_empty source_name || is_empty tool_name
    then none
    else some (record { source_name = source_name; tool_name = tool_name })

unfoldable pub ref_of : Option Text → Option ToolRef
unfolding partition
ref_of none = none
ref_of (some remainder) = tool_ref (partition remainder)

unfoldable pub parse_internal_tool_name : Text → Option ToolRef
unfolding ref_of strip_prefix
parse_internal_tool_name value = ref_of (strip_prefix (codes "mcp__") value)
