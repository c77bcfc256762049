-- ===== src/Graph/Children.antt =====
-- The children of a node of the runtime graph.
use codeng.Prelude.{
  ◌≡◌, refl, arith, ap, ◌∙◌, sym, subst, Bool, true, false, ◌&&◌, Option, none, some, List, [], ◌∷◌,
  ◌++◌, if◌then◌else◌, Bool-cases, Option-cases, inl, inr,
}
use mathlib.Core.List.{append_assoc, append-nil}
use codeng.Prelude.Texts
use codeng.Prelude.Texts.{text_eq, text_eq_iff, get-put}
use codeng.Workflow.Data.{Text}
use codeng.Graph.Data.{Edge}
use codeng.Graph.Runtime.{
  RuntimeNode, add_child, connect, wire_edge, wire_edges, get_child_by_outcome,
}

-- the targets of the edges from a node
unfoldable pub targets : Text → List Edge → List Text
targets n [] = []
targets n (e ∷ es) =
    let rest = targets n es in if text_eq e.source_node n then e.target_node ∷ rest else rest

-- the target of the last edge from an outcome of a node
unfoldable pub target_of : Text → Text → List Edge → Option Text
target_of n o [] = none
target_of n o (e ∷ es) = elim (target_of n o es) [
  | some t ↦ some t
  | none ↦
      if text_eq e.source_node n && text_eq e.source_outcome o then some e.target_node else none
]

-- a node with the edges that leave it
abbrev with_edge : Text → Edge → RuntimeNode → RuntimeNode
with_edge n e p = if text_eq e.source_node n then add_child e p else p

unfoldable wired_as : Text → List Edge → RuntimeNode → RuntimeNode
wired_as n [] p = p
wired_as n (e ∷ es) p = wired_as n es (with_edge n e p)

abbrev map_node : (RuntimeNode → RuntimeNode) → Option RuntimeNode → Option RuntimeNode
map_node f none = none
map_node f (some p) = some (f p)

connect-some :
    (e : Edge) (nodes next : List (Text × RuntimeNode)) (o c : Option RuntimeNode)
    → connect e nodes o c ≡ some next
    → (p : RuntimeNode) × (o ≡ some p) × (next ≡ Texts.put e.source_node (add_child e p) nodes)
unfolding connect
connect-some e nodes next none c h = absurd (ground arith)
connect-some e nodes next (some p) none h = absurd (ground arith)
connect-some e nodes next (some p) (some c) h = (p, refl, ground arith)

map_node-other :
    (e : Edge) (n : Text) (o : Option RuntimeNode)
    → text_eq e.source_node n ≡ false
    → o ≡ map_node (with_edge n e) o
map_node-other e n none other = refl
map_node-other e n (some p) other = ap (λ b. some (if b then add_child e p else p)) (sym other)

get-wire_edge :
    (e : Edge) (nodes next : List (Text × RuntimeNode)) (n : Text)
    → wire_edge e nodes ≡ some next
    → Texts.get n next ≡ map_node (with_edge n e) (Texts.get n nodes)
unfolding wire_edge
get-wire_edge e nodes next n h =
    let (p, at, put) =
      connect-some e nodes next (Texts.get e.source_node nodes) (Texts.get e.target_node nodes) h in
    ap (Texts.get n) put
    ∙ get-put e.source_node n (add_child e p) nodes
    ∙ elim (Bool-cases (text_eq e.source_node n)) [
      | inl same ↦
          let q : e.source_node ≡ n = (text_eq_iff e.source_node n).0 same in
          let here : Texts.get n nodes ≡ some p = subst (λ k. Texts.get k nodes ≡ some p) q at in
          rw (same, here) (ap (λ b. some (if b then add_child e p else p)) (sym same))
      | inr other ↦ rw (other) (map_node-other e n (Texts.get n nodes) other)
    ]

map_node-wired_as :
    (n : Text) (e : Edge) (es : List Edge) (o : Option RuntimeNode)
    → map_node (wired_as n es) (map_node (with_edge n e) o) ≡ map_node (wired_as n (e ∷ es)) o
unfolding wired_as
map_node-wired_as n e es none = refl
map_node-wired_as n e es (some p) = refl

map_node-nothing : (n : Text) (o : Option RuntimeNode) → o ≡ map_node (wired_as n []) o
unfolding wired_as
map_node-nothing n none = refl
map_node-nothing n (some p) = refl

get-wire_edges :
    (es : List Edge) (nodes wired : List (Text × RuntimeNode)) (n : Text)
    → wire_edges es nodes ≡ some wired
    → Texts.get n wired ≡ map_node (wired_as n es) (Texts.get n nodes)
unfolding wire_edges
get-wire_edges [] nodes wired n h =
    let same : wired ≡ nodes = ground arith in
    ap (Texts.get n) same ∙ map_node-nothing n (Texts.get n nodes)
get-wire_edges (e ∷ es) nodes wired n h = elim (Option-cases (wire_edge e nodes)) [
  | inl missing ↦ absurd (ground arith)
  | inr (next, w) ↦
      let rest : wire_edges es next ≡ some wired = ground arith in
      get-wire_edges es next wired n rest
      ∙ ap (map_node (wired_as n es)) (get-wire_edge e nodes next n w)
      ∙ map_node-wired_as n e es (Texts.get n nodes)
]

children-with_edge :
    (n : Text) (e : Edge) (p : RuntimeNode)
    → (with_edge n e p).children ≡ p.children ++ targets n (e ∷ [])
unfolding targets add_child
children-with_edge n e p = elim (Bool-cases (text_eq e.source_node n)) [
  | inl same ↦ rw (same) refl
  | inr other ↦ rw (other) (sym (append-nil p.children))
]

targets-append :
    (n : Text) (e : Edge) (es : List Edge) → targets n (e ∷ []) ++ targets n es ≡ targets n (e ∷ es)
unfolding targets
targets-append n e es = elim (Bool-cases (text_eq e.source_node n)) [
  | inl same ↦ rw (same) refl
  | inr other ↦ rw (other) refl
]

children-wired_as :
    (n : Text) (es : List Edge) (p : RuntimeNode)
    → (wired_as n es p).children ≡ p.children ++ targets n es
unfolding wired_as targets
children-wired_as n [] p = sym (append-nil p.children)
children-wired_as n (e ∷ es) p =
    children-wired_as n es (with_edge n e p)
    ∙ ap (λ cs. cs ++ targets n es) (children-with_edge n e p)
    ∙ append_assoc p.children (targets n (e ∷ [])) (targets n es)
    ∙ ap (λ ts. p.children ++ ts) (targets-append n e es)

abbrev pub or_else : Option Text → Option Text → Option Text
or_else (some t) o = some t
or_else none o = o

if-or_else :
    (b : Bool) (t : Text) (c : Option Text)
    → (if b then some t else c) ≡ or_else (if b then some t else none) c
if-or_else true t c = refl
if-or_else false t c = refl

child-with_edge :
    (n o : Text) (e : Edge) (p : RuntimeNode)
    → get_child_by_outcome o (with_edge n e p)
      ≡ or_else (target_of n o (e ∷ [])) (get_child_by_outcome o p)
unfolding get_child_by_outcome target_of add_child
child-with_edge n o e p = elim (Bool-cases (text_eq e.source_node n)) [
  | inl same ↦ rw (same) (
      get-put e.source_outcome o e.target_node p.child_by_outcome
      ∙ if-or_else (text_eq e.source_outcome o) e.target_node (Texts.get o p.child_by_outcome))
  | inr other ↦ rw (other) refl
]

or_else-target_of :
    (n o : Text) (e : Edge) (es : List Edge) (c : Option Text)
    → or_else (target_of n o es) (or_else (target_of n o (e ∷ [])) c)
      ≡ or_else (target_of n o (e ∷ es)) c
unfolding target_of
or_else-target_of n o e es c = elim (Option-cases (target_of n o es)) [
  | inl missing ↦ rw (missing, target_of) refl
  | inr (t, found) ↦ rw (found, target_of) refl
]

child-wired_as :
    (n o : Text) (es : List Edge) (p : RuntimeNode)
    → get_child_by_outcome o (wired_as n es p)
      ≡ or_else (target_of n o es) (get_child_by_outcome o p)
unfolding wired_as target_of
child-wired_as n o [] p = refl
child-wired_as n o (e ∷ es) p =
    child-wired_as n o es (with_edge n e p)
    ∙ ap (or_else (target_of n o es)) (child-with_edge n o e p)
    ∙ or_else-target_of n o e es (get_child_by_outcome o p)

-- If the edges are wired without a KeyError, each node has as children, behind those it had, the
-- targets of its edges in their order, and the child of an outcome is the target of the last edge from
-- it, or else the child it had.
pub wire_edges-children :
    (es : List Edge) (nodes wired : List (Text × RuntimeNode)) (n : Text) (p : RuntimeNode)
    → wire_edges es nodes ≡ some wired
    → Texts.get n nodes ≡ some p
    → (q : RuntimeNode) × (Texts.get n wired ≡ some q)
      × (q.children ≡ p.children ++ targets n es)
      × ((o : Text)
          → get_child_by_outcome o q ≡ or_else (target_of n o es) (get_child_by_outcome o p))
wire_edges-children es nodes wired n p h at = (
  wired_as n es p,
  get-wire_edges es nodes wired n h ∙ ap (map_node (wired_as n es)) at,
  children-wired_as n es p,
  λ o. child-wired_as n o es p,
)
