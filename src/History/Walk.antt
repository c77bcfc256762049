-- ===== src/History/Walk.antt =====
-- The loops of `HistoryManager` that go from a step to its ancestors. The code appends each id to a
-- list and to the set `seen`, and reverses the list at the end: `path` is that list in reverse, and
-- it is also `seen`. The fuel counts the rounds; a loop has one round more than there are ids to
-- meet, since every round but the last meets a new one.
mod Rounds
pub mod Fuel
pub mod Chain
pub mod Grow
pub mod Shows
use codeng.Prelude.{
  ℕ, zero, suc, true, false, Option, none, some, List, [], ◌∷◌, has, if◌then◌else◌, length,
}
use codeng.Prelude.Dict
use codeng.Prelude.Dict.{Dict}
use codeng.Workflow.Data.{Uuid, WorkflowExecution}
use codeng.Workflow.Action.{Outcome, ok, raised, diverged}
use codeng.Workflow.Access.{get_step, get_branch}

-- the loop of `_compute_branch_step_ids`, which raises on an unknown id
unfoldable pub branch_path : ℕ → WorkflowExecution → Option Uuid → List Uuid → Outcome (List Uuid)
branch_path n e none path = ok path
branch_path zero e (some k) path = raised diverged
branch_path (suc n) e (some k) path = elim (has k path) [
  | true ↦ ok path
  | false ↦ elim (get_step k e) [
    | ok s ↦ branch_path n e s.parent_step_id (k ∷ path)
    | raised x ↦ raised x
  ]
]

-- the loop of `_get_path_from_head`, which stops at an unknown id
unfoldable pub head_path : ℕ → WorkflowExecution → Option Uuid → List Uuid → Outcome (List Uuid)
head_path n e none path = ok path
head_path zero e (some k) path = raised diverged
head_path (suc n) e (some k) path = elim (has k path) [
  | true ↦ ok path
  | false ↦ elim (Dict.get k e.steps_by_id) [
    | some s ↦ head_path n e s.parent_step_id (k ∷ path)
    | none ↦ ok (k ∷ path)
  ]
]

abbrev pub rounds : WorkflowExecution → ℕ
rounds e = suc (length e.steps_by_id)

unfoldable pub compute_branch_step_ids : Uuid → WorkflowExecution → Outcome (List Uuid)
unfolding get_branch
compute_branch_step_ids branch_id e = elim (get_branch branch_id e) [
  | ok b ↦ branch_path (rounds e) e b.head_step_id []
  | raised x ↦ raised x
]

unfoldable pub get_path_from_head : Option Uuid → WorkflowExecution → Outcome (List Uuid)
get_path_from_head step_id e = head_path (rounds e) e step_id []

-- `removed_parent_ids.get(k)`: a missing key and a key with no parent both give `None`
abbrev pub removed_parent : Uuid → Dict (Option Uuid) → Option Uuid
removed_parent k removed = elim (Dict.get k removed) [ some p ↦ p | none ↦ none ]

-- the loop of `_find_existing_ancestor`; it keeps no set of what it met
unfoldable pub ancestor :
    ℕ → WorkflowExecution → Dict (Option Uuid) → Option Uuid → Outcome (Option Uuid)
ancestor n e removed none = ok none
ancestor zero e removed (some k) = raised diverged
ancestor (suc n) e removed (some k) = elim (Dict.get k e.steps_by_id) [
  | some s ↦ ok (some k)
  | none ↦ ancestor n e removed (removed_parent k removed)
]

unfoldable pub find_existing_ancestor :
    Dict (Option Uuid) → Option Uuid → WorkflowExecution → Outcome (Option Uuid)
find_existing_ancestor removed step_id e = ancestor (suc (suc (length removed))) e removed step_id

-- the elements of `after` that `before` lacks, in order
unfoldable pub compute_removed_step_ids : List Uuid → List Uuid → List Uuid
compute_removed_step_ids [] after = []
compute_removed_step_ids (k ∷ before) after =
    let rest = compute_removed_step_ids before after in if has k after then rest else k ∷ rest
