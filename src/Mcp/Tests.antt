-- ===== src/Mcp/Tests.antt =====
-- The names and the choice of tools at concrete inputs.
use codeng.Prelude.{◌≡◌, refl, ◌∷◌, false, [], some}
use codeng.Prelude.Texts
use codeng.Prelude.Strings.{codes, strip_prefix}
use codeng.Mcp.Naming.{
  build_internal_tool_name, parse_internal_tool_name, normalize_tool_ref, normalize_segment,
  partition, sub_unsafe, lstrip_underscores, rstrip_underscores, ref_of,
}
use codeng.Mcp.Materialization.{
  Selector, Service, build_node_tools, adapter, add_sources, add_source, is_enabled_for_node,
  any_matches, any_enabled,
}
use codeng.Mcp.RoundTrip.{parse_internal_tool_name-build_internal_tool_name}
use codeng.Mcp.Enabled.{AllAllowed, build_node_tools-AllAllowed}

parse_internal_tool_name-build_internal_tool_name_example :
    parse_internal_tool_name (build_internal_tool_name (codes "my.files") (codes "read__all"))
    ≡ some (normalize_tool_ref (codes "my.files") (codes "read__all"))
unfolding partition normalize_segment sub_unsafe lstrip_underscores rstrip_underscores
parse_internal_tool_name-build_internal_tool_name_example =
    parse_internal_tool_name-build_internal_tool_name (codes "my.files") (codes "read__all") refl

-- the name of a source with a double underscore is read back as another source and another tool
misread :
    parse_internal_tool_name (build_internal_tool_name (codes "my__files") (codes "read"))
    ≡ some (record { source_name = codes "my"; tool_name = codes "files__read" })
unfolding parse_internal_tool_name build_internal_tool_name normalize_tool_ref normalize_segment
    partition sub_unsafe lstrip_underscores rstrip_underscores ref_of strip_prefix
misread = refl

abbrev all_files : Selector
all_files = record { source = codes "files"; tool = codes "*" }

abbrev files_remove : Selector
files_remove = record { source = codes "files"; tool = codes "remove" }

abbrev servers : Service
servers = record {
  tool_cache =
      (codes "files", codes "read" ∷ codes "remove" ∷ []) ∷ (codes "web", codes "get" ∷ []) ∷ [];
  prompt_sources = codes "files" ∷ [];
  resource_sources = [];
}

build_node_tools-AllAllowed_example :
    AllAllowed
      (all_files ∷ [])
      (files_remove ∷ [])
      (build_node_tools servers (all_files ∷ []) (files_remove ∷ []) false false)
build_node_tools-AllAllowed_example =
    build_node_tools-AllAllowed (all_files ∷ []) (files_remove ∷ []) servers false false

-- two tools with one internal name are no collision: the later one takes the place of the other
later_wins :
    build_node_tools
      (record {
        tool_cache = (codes "files", codes "read-all" ∷ codes "read.all" ∷ []) ∷ [];
        prompt_sources = [];
        resource_sources = [];
      })
      (all_files ∷ [])
      []
      false
      false
    ≡ (codes "mcp__files__read_all", adapter (codes "files") (codes "read.all")) ∷ []
unfolding build_node_tools add_sources add_source is_enabled_for_node any_matches any_enabled
    build_internal_tool_name normalize_tool_ref normalize_segment sub_unsafe lstrip_underscores
    rstrip_underscores Texts.put
later_wins = refl
