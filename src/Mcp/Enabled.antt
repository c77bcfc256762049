-- ===== src/Mcp/Enabled.antt =====
-- Which tools of MCP servers a model can get.
use codeng.Prelude.{
  ◌≡◌, refl, Bool, true, false, List, [], ◌∷◌, Bool-cases, inl, inr, ◌⊎◌, ◌↔◌, arith,
}
use codeng.Prelude.Texts
use codeng.Prelude.Texts.{text_eq, text_eq_iff}
use codeng.Prelude.Strings.{codes}
use codeng.Workflow.Data.{Text}
use codeng.Mcp.Naming.{build_internal_tool_name}
use codeng.Mcp.Materialization.{
  Selector, matches, any_matches, is_enabled_for_node, any_enabled, NodeTool, get_prompt,
  read_resource, adapter, NodeTools, Service, add_source, add_sources, put_if, build_node_tools,
}

-- a selector names the source, and the tool or every tool
abbrev pub Selects : Text → Text → Selector → Type 0
Selects source tool s = (s.source ≡ source) × ((s.tool ≡ codes "*") ⊎ (s.tool ≡ tool))

-- some selector of a list does
unfoldable pub Selected : Text → Text → List Selector → Type 0
Selected source tool [] = ⊥
Selected source tool (s ∷ ss) = Selects source tool s ⊎ Selected source tool ss

matches-Selects :
    (source tool : Text) (s : Selector) → (matches source tool s ≡ true) ↔ Selects source tool s
matches-Selects source tool s =
    ground
      (arith, text_eq_iff s.source source, text_eq_iff s.tool (codes "*"), text_eq_iff s.tool tool)

any_matches-Selected :
    (source tool : Text) (ss : List Selector)
    → (any_matches source tool ss ≡ true) ↔ Selected source tool ss
unfolding any_matches Selected
any_matches-Selected source tool [] = ground arith
any_matches-Selected source tool (s ∷ ss) =
    ground (arith, matches-Selects source tool s, any_matches-Selected source tool ss)

module _ (selectors disabled : List Selector) where
  is_enabled_for_node_lem :
      (source tool : Text)
      → is_enabled_for_node selectors disabled source tool ≡ true
      → Selected source tool selectors × (¬ Selected source tool disabled)
  unfolding is_enabled_for_node
  is_enabled_for_node_lem source tool h =
      ground (
        arith,
        any_matches-Selected source tool selectors,
        any_matches-Selected source tool disabled,
      )

  -- a tool of a server is selected and not disabled, and has its internal name
  abbrev pub Allowed : Text → NodeTool → Type 0
  Allowed name (adapter source tool) =
      Selected source tool selectors
      × (¬ Selected source tool disabled)
      × (name ≡ build_internal_tool_name source tool)
  Allowed name _ = Unit

  unfoldable pub AllAllowed : NodeTools → Type 0
  AllAllowed [] = Unit
  AllAllowed ((name, t) ∷ tools) = Allowed name t × AllAllowed tools

  put-AllAllowed :
      (name : Text) (t : NodeTool) (tools : NodeTools)
      → Allowed name t
      → AllAllowed tools
      → AllAllowed (Texts.put name t tools)
  unfolding Texts.put AllAllowed
  put-AllAllowed name t [] a all = (a, tt)
  put-AllAllowed name t ((j, w) ∷ tools) a (b, all) = elim (Bool-cases (text_eq j name)) [
    | inl same ↦ rw (same, Texts.put) (a, all)
    | inr other ↦ rw (other, Texts.put) (b, put-AllAllowed name t tools a all)
  ]

  add_source-AllAllowed :
      (source : Text) (descriptors : List Text) (tools : NodeTools)
      → AllAllowed tools
      → AllAllowed (add_source selectors disabled source descriptors tools)
  unfolding add_source
  add_source-AllAllowed source [] tools all = all
  add_source-AllAllowed source (tool ∷ rest) tools all =
      elim (Bool-cases (is_enabled_for_node selectors disabled source tool)) [
        | inl yes_tool ↦
            rw (yes_tool, add_source)
              (add_source-AllAllowed source rest
                (Texts.put (build_internal_tool_name source tool) (adapter source tool) tools)
                (put-AllAllowed (build_internal_tool_name source tool) (adapter source tool) tools
                  (let (some_selects, none_disables) =
                      is_enabled_for_node_lem source tool yes_tool in
                    (some_selects, none_disables, refl))
                  all))
        | inr no_tool ↦ rw (no_tool, add_source) (add_source-AllAllowed source rest tools all)
      ]

  add_sources-AllAllowed :
      (cache : List (Text × List Text)) (tools : NodeTools)
      → AllAllowed tools
      → AllAllowed (add_sources selectors disabled cache tools)
  unfolding add_sources
  add_sources-AllAllowed [] tools all = all
  add_sources-AllAllowed ((source, descriptors) ∷ rest) tools all =
      add_sources-AllAllowed rest (add_source selectors disabled source descriptors tools)
        (add_source-AllAllowed source descriptors tools all)

  put_if-AllAllowed :
      (enabled : Bool) (name : Text) (t : NodeTool) (tools : NodeTools)
      → Allowed name t
      → AllAllowed tools
      → AllAllowed (put_if enabled name t tools)
  put_if-AllAllowed true name t tools a all = put-AllAllowed name t tools a all
  put_if-AllAllowed false name t tools a all = all

  -- In each mode, every tool of a server that a node gets is one that no disabling selector matches and
  -- that a selector matches, under the internal name of its source and its own name.
  pub build_node_tools-AllAllowed :
      (service : Service) (discover hide_listed_tools : Bool)
      → AllAllowed (build_node_tools service selectors disabled discover hide_listed_tools)
  unfolding build_node_tools AllAllowed
  build_node_tools-AllAllowed service true hide = (tt, tt)
  build_node_tools-AllAllowed service false true = tt
  build_node_tools-AllAllowed service false false =
      let listed = add_sources selectors disabled service.tool_cache [] in
      let prompts = any_enabled selectors disabled service.prompt_sources in
      put_if-AllAllowed (any_enabled selectors disabled service.resource_sources)
        (codes "mcp_read_resource") read_resource
        (put_if prompts (codes "mcp_get_prompt") get_prompt listed) tt
        (put_if-AllAllowed prompts (codes "mcp_get_prompt") get_prompt listed tt
          (add_sources-AllAllowed service.tool_cache [] tt))
