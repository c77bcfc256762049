-- ===== src/Mcp/Materialization.antt =====
-- src/vocode/mcp/tool_materialization.py. The caches of the service are parameters: the descriptors
-- of the tools of each source, and the sources with prompts and with resources. A tool object is the
-- descriptor it adapts; what the project and the configuration hand on is not modelled.
use codeng.Prelude.{Bool, true, false, ◌&&◌, ◌||◌, List, [], ◌∷◌, if◌then◌else◌}
use codeng.Prelude.Texts
use codeng.Prelude.Texts.{text_eq}
use codeng.Prelude.Strings.{codes}
use codeng.Workflow.Data.{Text}
use codeng.Mcp.Naming.{build_internal_tool_name}

pub record Selector : Type 0 where
  pub source : Text
  pub tool : Text

abbrev pub matches : Text → Text → Selector → Bool
matches source_name tool_name s =
    text_eq s.source source_name && (text_eq s.tool (codes "*") || text_eq s.tool tool_name)

unfoldable pub any_matches : Text → Text → List Selector → Bool
any_matches source_name tool_name [] = false
any_matches source_name tool_name (s ∷ ss) =
    let rest = any_matches source_name tool_name ss in
    if matches source_name tool_name s then true else rest

unfoldable pub is_enabled_for_node : List Selector → List Selector → Text → Text → Bool
unfolding any_matches
is_enabled_for_node selectors disabled_selectors source_name tool_name =
    if any_matches source_name tool_name disabled_selectors
    then false
    else any_matches source_name tool_name selectors

pub data NodeTool : Type 0 where
  discovery get_prompt read_resource : NodeTool
  adapter : Text → Text → NodeTool

-- the tools under their names
abbrev pub NodeTools : Type 0
NodeTools = List (Text × NodeTool)

pub record Service : Type 0 where
  pub tool_cache : List (Text × List Text)
  pub prompt_sources : List Text
  pub resource_sources : List Text

unfoldable pub any_enabled : List Selector → List Selector → List Text → Bool
unfolding is_enabled_for_node
any_enabled selectors disabled [] = false
any_enabled selectors disabled (source ∷ sources) =
    let rest = any_enabled selectors disabled sources in
    if is_enabled_for_node selectors disabled source (codes "*") then true else rest

unfoldable pub add_source : List Selector → List Selector → Text → List Text → NodeTools → NodeTools
unfolding is_enabled_for_node build_internal_tool_name
add_source selectors disabled source [] tools = tools
add_source selectors disabled source (tool ∷ rest) tools =
    add_source selectors disabled source rest (
      if is_enabled_for_node selectors disabled source tool
      then Texts.put (build_internal_tool_name source tool) (adapter source tool) tools
      else tools)

unfoldable pub add_sources :
    List Selector → List Selector → List (Text × List Text) → NodeTools → NodeTools
unfolding add_source
add_sources selectors disabled [] tools = tools
add_sources selectors disabled ((source, descriptors) ∷ rest) tools =
    add_sources selectors disabled rest (add_source selectors disabled source descriptors tools)

abbrev pub put_if : Bool → Text → NodeTool → NodeTools → NodeTools
put_if enabled name tool tools = if enabled then Texts.put name tool tools else tools

unfoldable pub build_node_tools : Service → List Selector → List Selector → Bool → Bool → NodeTools
unfolding add_sources any_enabled
build_node_tools service selectors disabled discover hide_listed_tools =
    if discover
    then (codes "mcp_discovery", discovery) ∷ []
    else if hide_listed_tools
    then []
    else put_if (any_enabled selectors disabled service.resource_sources)
        (codes "mcp_read_resource") read_resource
        (put_if (any_enabled selectors disabled service.prompt_sources) (codes "mcp_get_prompt")
          get_prompt (add_sources selectors disabled service.tool_cache []))
