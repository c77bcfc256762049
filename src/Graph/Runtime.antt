-- ===== src/Graph/Runtime.antt =====
-- `RuntimeGraph`. A node that another refers to is given by its name.
use codeng.Prelude.{Option, none, some, List, [], ◌∷◌, ◌++◌}
use codeng.Prelude.Texts
use codeng.Workflow.Data.{Text}
use codeng.Graph.Data.{Node, Edge, Graph, by_name}

pub record RuntimeNode : Type 0 where
  pub model : Node
  pub children : List Text
  pub child_by_outcome : List (Text × Text)

pub record RuntimeGraph : Type 0 where
  pub runtime_nodes : List (Text × RuntimeNode)
  pub root : Text

pub data Built : Type 0 where
  built : RuntimeGraph → Built
  value_error key_error : Built

abbrev pub runtime_node : Node → RuntimeNode
runtime_node n = record { model = n; children = []; child_by_outcome = [] }

unfoldable pub add_child : Edge → RuntimeNode → RuntimeNode
add_child e p = record p {
  children = p.children ++ e.target_node ∷ [];
  child_by_outcome = Texts.put e.source_outcome e.target_node p.child_by_outcome;
}

-- `none` is a KeyError
unfoldable pub connect :
    Edge
    → List (Text × RuntimeNode)
    → Option RuntimeNode
    → Option RuntimeNode
    → Option (List (Text × RuntimeNode))
unfolding add_child
connect e nodes none child = none
connect e nodes (some parent) none = none
connect e nodes (some parent) (some child) =
    some (Texts.put e.source_node (add_child e parent) nodes)

unfoldable pub wire_edge : Edge → List (Text × RuntimeNode) → Option (List (Text × RuntimeNode))
unfolding connect
wire_edge e nodes = connect e nodes (Texts.get e.source_node nodes) (Texts.get e.target_node nodes)

unfoldable pub wire_edges :
    List Edge → List (Text × RuntimeNode) → Option (List (Text × RuntimeNode))
unfolding wire_edge
wire_edges [] nodes = some nodes
wire_edges (e ∷ es) nodes = elim (wire_edge e nodes) [
  | none ↦ none
  | some wired ↦ wire_edges es wired
]

abbrev pub with_root : Text → Option (List (Text × RuntimeNode)) → Built
with_root root none = key_error
with_root root (some nodes) = built (record { runtime_nodes = nodes; root = root })

unfoldable pub build_nodes : List Node → List Edge → Built
unfolding wire_edges by_name
build_nodes [] edges = value_error
build_nodes (n ∷ ns) edges = with_root n.name (wire_edges edges (by_name runtime_node (n ∷ ns) []))

unfoldable pub build_runtime_graph : Graph → Built
unfolding build_nodes
build_runtime_graph g = build_nodes g.nodes g.edges

unfoldable pub get_runtime_node_by_name : Text → RuntimeGraph → Option RuntimeNode
get_runtime_node_by_name name g = Texts.get name g.runtime_nodes

unfoldable pub get_child_by_outcome : Text → RuntimeNode → Option Text
get_child_by_outcome outcome n = Texts.get outcome n.child_by_outcome
