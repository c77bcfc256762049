-- ===== src/Graph/Tests.antt =====
-- A graph of two nodes.
use codeng.Prelude.{◌≡◌, refl, some, List, [], ◌∷◌, ◌++◌}
use codeng.Prelude.Texts
use codeng.Prelude.Strings.{codes}
use codeng.Workflow.Data.{Text}
use codeng.Graph.Data.{Node, Edge, Graph, by_name, known}
use codeng.Graph.Validation.{
  validate_graph, duplicate_nodes, check_edges, check_edge, declared_outcomes, slots_of,
  check_sources, all_in,
}
use codeng.Graph.Runtime.{
  RuntimeNode, get_child_by_outcome, wire_edges, wire_edge, connect, add_child, RuntimeGraph, built,
  build_runtime_graph,
}
use codeng.Graph.Children.{targets, target_of, or_else, wire_edges-children}
use codeng.Graph.Wired.{build_runtime_graph-built}

abbrev code : Node
code = record {
  name = codes "code";
  type = codes "llm";
  outcomes = codes "done" ∷ codes "again" ∷ [];
}

abbrev review : Node
review = record { name = codes "review"; type = codes "llm"; outcomes = [] }

abbrev edges : List Edge
edges =
    record {
      source_node = codes "code";
      source_outcome = codes "done";
      target_node = codes "review";
    }
    ∷ record {
      source_node = codes "code";
      source_outcome = codes "again";
      target_node = codes "code";
    }
    ∷ []

abbrev graph : Graph
graph = record { nodes = code ∷ review ∷ []; edges = edges }

twice : validate_graph (record { nodes = code ∷ code ∷ []; edges = edges }) ≡ some duplicate_nodes
unfolding validate_graph by_name Texts.put
twice = refl

build_runtime_graph-built_example : (r : RuntimeGraph) × (build_runtime_graph graph ≡ built r)
unfolding validate_graph by_name Texts.put Texts.get known check_edges check_edge declared_outcomes
    slots_of check_sources all_in
build_runtime_graph-built_example = build_runtime_graph-built graph refl refl

abbrev plain : Node → RuntimeNode
plain n = record { model = n; children = []; child_by_outcome = [] }

abbrev before : List (Text × RuntimeNode)
before = (codes "code", plain code) ∷ (codes "review", plain review) ∷ []

abbrev after : List (Text × RuntimeNode)
after =
    (
      codes "code",
      record {
        model = code;
        children = codes "review" ∷ codes "code" ∷ [];
        child_by_outcome = (codes "done", codes "review") ∷ (codes "again", codes "code") ∷ [];
      },
    )
    ∷ (codes "review", plain review)
    ∷ []

wire_edges-children_example :
    (q : RuntimeNode) × (Texts.get (codes "code") after ≡ some q)
    × (q.children ≡ [] ++ targets (codes "code") edges)
    × ((o : Text)
        → get_child_by_outcome o q
          ≡ or_else (target_of (codes "code") o edges) (get_child_by_outcome o (plain code)))
unfolding wire_edges wire_edge connect add_child Texts.get Texts.put
wire_edges-children_example =
    wire_edges-children edges before after (codes "code") (plain code) refl refl
