-- ===== src/Graph/Data.antt =====
-- The graph of a workflow as it is configured. Of a node the settings that the graph does not read
-- are left out, and of an edge its reset policy.
use codeng.Prelude.{Bool, true, false, Option, none, some, List, [], ◌∷◌}
use codeng.Prelude.Texts
use codeng.Workflow.Data.{Text}

pub record Node : Type 0 where
  pub name : Text
  pub type : Text
  pub outcomes : List Text

pub record Edge : Type 0 where
  pub source_node : Text
  pub source_outcome : Text
  pub target_node : Text

pub record Graph : Type 0 where
  pub nodes : List Node
  pub edges : List Edge

-- `{n.name: f(n) for n in nodes}`
unfoldable pub by_name {ℓ} :
    {V : Type ℓ} → (Node → V) → List Node → List (Text × V) → List (Text × V)
by_name f [] d = d
by_name f (n ∷ ns) d = by_name f ns (Texts.put n.name (f n) d)

abbrev pub is_some {ℓ} : {V : Type ℓ} → Option V → Bool
is_some none = false
is_some (some v) = true

-- `name in d`
unfoldable pub known {ℓ} : {V : Type ℓ} → Text → List (Text × V) → Bool
unfolding Texts.get
known name d = is_some (Texts.get name d)
