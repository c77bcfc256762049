-- ===== src/Graph/Validation.antt =====
-- `Graph._validate_graph`. Of an error the kind stands for the message.
use codeng.Prelude.{
  Bool, true, false, not, ◌&&◌, ◌||◌, Option, none, some, List, [], ◌∷◌, ◌++◌, ◌==◌, if◌then◌else◌,
  length,
}
use codeng.Prelude.Texts
use codeng.Prelude.Texts.{text_eq}
use codeng.Workflow.Data.{Text}
use codeng.Graph.Data.{Node, Edge, Graph, by_name, known}

pub data GraphError : Type 0 where
  duplicate_nodes unknown_source unknown_target unknown_outcome multiple_edges : GraphError
  edges_do_not_fit : GraphError

abbrev pub Slot : Type 0
Slot = Text × Text

abbrev pub has_slot : Slot → List Slot → Bool
has_slot s [] = false
has_slot s (t ∷ ts) = (text_eq t.0 s.0 && text_eq t.1 s.1) || has_slot s ts

abbrev pub has_outcome : Text → List Text → Bool
has_outcome o [] = false
has_outcome o (p ∷ ps) = text_eq p o || has_outcome o ps

unfoldable pub slots_of : Text → List Text → List Slot
slots_of name [] = []
slots_of name (o ∷ os) = (name, o) ∷ slots_of name os

unfoldable pub declared_outcomes : List Node → List Slot
unfolding slots_of
declared_outcomes [] = []
declared_outcomes (n ∷ ns) = slots_of n.name n.outcomes ++ declared_outcomes ns

abbrev pub outcome_declared : Text → Option Node → Bool
outcome_declared o none = false
outcome_declared o (some n) = has_outcome o n.outcomes

abbrev pub slot_of : Edge → Slot
slot_of e = (e.source_node, e.source_outcome)

-- the first error of the edges, or the slots that they start from
pub data Sources : Type 0 where
  sources : List Slot → Sources
  wrong : GraphError → Sources

unfoldable pub check_edge : List (Text × Node) → List Slot → Edge → Option GraphError
unfolding Texts.get known
check_edge nodes seen e =
    if not (known e.source_node nodes)
    then some unknown_source
    else if not (known e.target_node nodes)
    then some unknown_target
    else if not (outcome_declared e.source_outcome (Texts.get e.source_node nodes))
    then some unknown_outcome
    else if has_slot (slot_of e) seen
    then some multiple_edges
    else none

unfoldable pub check_edges : List (Text × Node) → List Slot → List Edge → Sources
unfolding check_edge
check_edges nodes seen [] = sources seen
check_edges nodes seen (e ∷ es) = elim (check_edge nodes seen e) [
  | some x ↦ wrong x
  | none ↦ check_edges nodes (seen ++ slot_of e ∷ []) es
]

unfoldable pub all_in : List Slot → List Slot → Bool
all_in [] ts = true
all_in (s ∷ ss) ts = has_slot s ts && all_in ss ts

unfoldable pub check_sources : List Slot → Sources → Option GraphError
unfolding all_in
check_sources declared (wrong x) = some x
check_sources declared (sources starts) =
    if all_in declared starts && all_in starts declared then none else some edges_do_not_fit

unfoldable pub validate_graph : Graph → Option GraphError
unfolding by_name check_edges declared_outcomes check_sources
validate_graph g =
    let node_by_name = by_name (λ (n : Node). n) g.nodes [] in
    if not (length node_by_name == length g.nodes)
    then some duplicate_nodes
    else check_sources (declared_outcomes g.nodes) (check_edges node_by_name [] g.edges)
