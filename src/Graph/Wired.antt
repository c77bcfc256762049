-- ===== src/Graph/Wired.antt =====
-- `RuntimeGraph` on a graph that passed the validation.
use codeng.Prelude.{
  ◌≡◌, refl, arith, ap, ◌∙◌, sym, Bool, true, false, ◌||◌, none, some, List, [], ◌∷◌, ◌++◌,
  Option-cases, inl, inr, is_empty,
}
use codeng.Prelude.Texts
use codeng.Prelude.Texts.{text_eq, text_eq_iff, get-put}
use codeng.Workflow.Data.{Text}
use codeng.Graph.Data.{Node, Edge, Graph, by_name, known}
use codeng.Graph.Validation.{
  Slot, slot_of, Sources, sources, wrong, check_edge, check_edges, check_sources, declared_outcomes,
  validate_graph,
}
use codeng.Graph.Runtime.{
  RuntimeNode, RuntimeGraph, built, runtime_node, add_child, connect, wire_edge, wire_edges,
  with_root, build_nodes, build_runtime_graph,
}

known-put {ℓ} :
    {V : Type ℓ} (n k : Text) (v : V) (d : List (Text × V))
    → known n (Texts.put k v d) ≡ (text_eq k n || known n d)
unfolding known
known-put n k v d = rw (get-put k n v d) (ground arith)

known-by_name {ℓ ℓ'} :
    {V : Type ℓ} {W : Type ℓ'} (f : Node → V) (g : Node → W) (ns : List Node) (d : List (Text × V))
    (e : List (Text × W))
    → ((n : Text) → known n d ≡ known n e)
    → (n : Text) → known n (by_name f ns d) ≡ known n (by_name g ns e)
unfolding by_name
known-by_name f g [] d e same n = same n
known-by_name f g (m ∷ ns) d e same n =
    known-by_name f g ns (Texts.put m.name (f m) d) (Texts.put m.name (g m) e)
      (λ k.
        known-put k m.name (f m) d
        ∙ ap (λ b. text_eq m.name k || b) (same k)
        ∙ sym (known-put k m.name (g m) e))
      n

-- the nodes of each edge are known
abbrev EndsKnown : (Text → Bool) → List Edge → Type 0
EndsKnown is_known [] = Unit
EndsKnown is_known (e ∷ es) =
    (is_known e.source_node ≡ true) × (is_known e.target_node ≡ true) × EndsKnown is_known es

check_edge-known :
    (nodes : List (Text × Node)) (seen : List Slot) (e : Edge)
    → check_edge nodes seen e ≡ none
    → (known e.source_node nodes ≡ true) × (known e.target_node nodes ≡ true)
unfolding check_edge
check_edge-known nodes seen e h = ground arith

check_edges-EndsKnown :
    (nodes : List (Text × Node)) (seen starts : List Slot) (es : List Edge)
    → check_edges nodes seen es ≡ sources starts
    → EndsKnown (λ n. known n nodes) es
unfolding check_edges
check_edges-EndsKnown nodes seen starts [] h = tt
check_edges-EndsKnown nodes seen starts (e ∷ es) h = elim (Option-cases (check_edge nodes seen e)) [
  | inl fine ↦
      let (source, target) = check_edge-known nodes seen e fine in
      let rest : check_edges nodes (seen ++ slot_of e ∷ []) es ≡ sources starts = ground arith in
      (source, target, check_edges-EndsKnown nodes (seen ++ slot_of e ∷ []) starts es rest)
  | inr (x, err) ↦ absurd (ground arith)
]

known-some {ℓ} :
    {V : Type ℓ} (n : Text) (d : List (Text × V))
    → known n d ≡ true
    → (v : V) × (Texts.get n d ≡ some v)
unfolding known
known-some n d h = elim (Option-cases (Texts.get n d)) [
  | inl missing ↦ absurd (ground arith)
  | inr found ↦ found
]

wire_edges-some :
    (is_known : Text → Bool) (es : List Edge) (nodes : List (Text × RuntimeNode))
    → ((n : Text) → known n nodes ≡ is_known n)
    → EndsKnown is_known es
    → (wired : List (Text × RuntimeNode)) × (wire_edges es nodes ≡ some wired)
unfolding wire_edges wire_edge connect
wire_edges-some is_known [] nodes same ends = (nodes, refl)
wire_edges-some is_known (e ∷ es) nodes same (source, target, ends) =
    let (p, found) = known-some e.source_node nodes (same e.source_node ∙ source) in
    let (c, there) = known-some e.target_node nodes (same e.target_node ∙ target) in
    let next = Texts.put e.source_node (add_child e p) nodes in
    let w : wire_edge e nodes ≡ some next =
      ap (λ o. connect e nodes o (Texts.get e.target_node nodes)) found
      ∙ ap (connect e nodes (some p)) there in
    let still : (n : Text) → known n next ≡ is_known n = λ n.
      known-put n e.source_node (add_child e p) nodes
      ∙ ground (
        arith,
        same n,
        same e.source_node,
        source,
        text_eq_iff e.source_node n,
        λ (q : e.source_node ≡ n). ap is_known q,
      ) in
    let (wired, rest) = wire_edges-some is_known es next still ends in
    (wired, rw (w, wire_edges) rest)

check_sources-none :
    (declared : List Slot) (r : Sources)
    → check_sources declared r ≡ none
    → (starts : List Slot) × (r ≡ sources starts)
unfolding check_sources
check_sources-none declared (wrong x) h = absurd (ground arith)
check_sources-none declared (sources starts) h = (starts, refl)

build_nodes-built :
    (ns : List Node) (es : List Edge)
    → is_empty ns ≡ false
    → EndsKnown (λ n. known n (by_name (λ (m : Node). m) ns [])) es
    → (g : RuntimeGraph) × (build_nodes ns es ≡ built g)
unfolding build_nodes known
build_nodes-built [] es full ends = absurd (ground arith)
build_nodes-built (n ∷ ns) es full ends =
    let (wired, w) =
      wire_edges-some (λ k. known k (by_name (λ (m : Node). m) (n ∷ ns) [])) es
        (by_name runtime_node (n ∷ ns) [])
        (known-by_name runtime_node (λ (m : Node). m) (n ∷ ns) [] [] (λ k. refl)) ends in
    (record { runtime_nodes = wired; root = n.name }, ap (with_root n.name) w)

-- A graph with a node, whose validation finds no error, becomes a runtime graph without a KeyError.
pub build_runtime_graph-built :
    (g : Graph)
    → is_empty g.nodes ≡ false
    → validate_graph g ≡ none
    → (r : RuntimeGraph) × (build_runtime_graph g ≡ built r)
unfolding build_runtime_graph validate_graph
build_runtime_graph-built g full valid =
    let nodes = by_name (λ (m : Node). m) g.nodes [] in
    let checked : check_sources (declared_outcomes g.nodes) (check_edges nodes [] g.edges) ≡ none =
      ground arith in
    let (starts, found) =
      check_sources-none (declared_outcomes g.nodes) (check_edges nodes [] g.edges) checked in
    build_nodes-built g.nodes g.edges full (check_edges-EndsKnown nodes [] starts g.edges found)
