-- ===== src/History/Remove.antt =====
-- `HistoryManager.delete_steps`, `delete_step`, `delete_node_execution`,
-- `trim_empty_node_executions` and `find_node_execution`. A step stands in its dictionary under its
-- own id.
use codeng.Prelude.{
  Bool, true, false, Option, none, some, List, [], ◌∷◌, ◌&&◌, if◌then◌else◌, option_eq, not, has,
  is_empty, keep, ltb, reverse,
}
use codeng.Prelude.Dict
use codeng.Prelude.Dict.{Dict}
use codeng.Prelude.Texts.{text_eq}
use codeng.Workflow.Data.{Uuid, Text, Step, BranchRecord, NodeExecution, WorkflowExecution}
use codeng.Workflow.Action.{Outcome, ok, raised, M, ◌>>=◌, ◌>>◌, pure, read, gets, modify}
use codeng.Workflow.Access.{get_step, get_node_execution}
use codeng.History.Walk.{find_existing_ancestor}
use codeng.History.Branches.{ensure_default_branch, refresh_step_ids}

-- the ids that are not in the list `gone`
abbrev pub outside : List Uuid → List Uuid → List Uuid
outside gone = keep (λ k. not (has k gone))

abbrev pub in_removed : List Uuid → Option Uuid → Bool
in_removed gone none = false
in_removed gone (some k) = has k gone

abbrev drop_children : List Uuid → Step → Step
drop_children gone s = record s { child_step_ids = outside gone s.child_step_ids }

abbrev cut_parent : List Uuid → Step → Step
cut_parent gone s = record s {
  parent_step_id = if in_removed gone s.parent_step_id then none else s.parent_step_id;
}

-- the steps that stay; a step whose parent goes has no parent
unfoldable pub surviving : List Uuid → Dict Step → Dict Step
surviving gone [] = []
surviving gone ((k, s) ∷ d) =
    let rest = surviving gone d in
    if has k gone then rest else (k, cut_parent gone (drop_children gone s)) ∷ rest

-- `removed_parent_ids`: the parent of each step that goes
unfoldable pub removed_parents : List Uuid → Dict Step → Dict (Option Uuid)
removed_parents gone [] = []
removed_parents gone ((k, s) ∷ d) =
    let rest = removed_parents gone d in if has k gone then (k, s.parent_step_id) ∷ rest else rest

abbrev release_node : List Uuid → NodeExecution → NodeExecution
release_node gone n = record n { step_ids = outside gone n.step_ids }

-- a head or a base that goes is replaced by its nearest ancestor that stays
relocate : List Uuid → Dict (Option Uuid) → WorkflowExecution → Option Uuid → Outcome (Option Uuid)
unfolding find_existing_ancestor
relocate gone removed e k = if in_removed gone k then find_existing_ancestor removed k e else ok k

relocate_branch :
    List Uuid → Dict (Option Uuid) → WorkflowExecution → BranchRecord → Outcome BranchRecord
unfolding relocate
relocate_branch gone removed e b = elim (relocate gone removed e b.head_step_id) [
  | raised x ↦ raised x
  | ok head ↦ elim (relocate gone removed e b.base_step_id) [
    | raised x ↦ raised x
    | ok base ↦ ok (record b { head_step_id = head; base_step_id = base })
  ]
]

unfoldable pub relocate_branches :
    List Uuid
    → Dict (Option Uuid)
    → WorkflowExecution
    → Dict BranchRecord
    → Outcome (Dict BranchRecord)
unfolding relocate_branch
relocate_branches gone removed e [] = ok []
relocate_branches gone removed e ((k, b) ∷ d) = elim (relocate_branch gone removed e b) [
  | raised x ↦ raised x
  | ok b' ↦ elim (relocate_branches gone removed e d) [
    | raised x ↦ raised x
    | ok d' ↦ ok ((k, b') ∷ d')
  ]
]

-- the loops over the steps and over the node executions
unfoldable pub detach : List Uuid → WorkflowExecution → WorkflowExecution
unfolding surviving
detach gone e = record e {
  steps_by_id = surviving gone e.steps_by_id;
  node_executions = Dict.map_values (release_node gone) e.node_executions;
}

unfoldable pub delete_steps : List Uuid → M (Unit {0})
unfolding detach removed_parents relocate_branches ensure_default_branch refresh_step_ids
delete_steps [] = pure tt
delete_steps (k ∷ ks) = do
  let gone = k ∷ ks
  removed ← gets (λ e. removed_parents gone e.steps_by_id)
  modify (detach gone)
  branches ← read (λ e. relocate_branches gone removed e e.branches_by_id)
  modify (λ e. record e { branches_by_id = branches })
  ensure_default_branch
  refresh_step_ids

unfoldable pub delete_step : Uuid → M (Unit {0})
unfolding delete_steps
delete_step k = delete_steps (k ∷ [])

unfoldable pub delete_node_execution : Uuid → M (Unit {0})
unfolding delete_steps
delete_node_execution k = do
  node ← gets (λ e. Dict.get k e.node_executions)
  elim node [
    | none ↦ pure tt
    | some n ↦ (do
      delete_steps n.step_ids
      modify (λ e. record e { node_executions = Dict.pop k e.node_executions }))
  ]

empty_node_ids : Dict NodeExecution → List Uuid
empty_node_ids [] = []
empty_node_ids ((k, n) ∷ d) =
    let rest = empty_node_ids d in if is_empty n.step_ids then n.id ∷ rest else rest

delete_nodes : List Uuid → M (Unit {0})
unfolding delete_node_execution
delete_nodes [] = pure tt
delete_nodes (k ∷ ks) = do delete_node_execution k; delete_nodes ks

unfoldable pub trim_empty_node_executions : M (Unit {0})
unfolding empty_node_ids delete_nodes
trim_empty_node_executions = do ids ← gets (λ e. empty_node_ids e.node_executions); delete_nodes ids

-- the latest visible step's node execution with the name; an execution is looked at once
visible_node : WorkflowExecution → Text → List Uuid → List Uuid → Outcome (Option NodeExecution)
unfolding get_step get_node_execution
visible_node e name seen [] = ok none
visible_node e name seen (k ∷ ks) = elim (get_step k e) [
  | raised x ↦ raised x
  | ok s ↦ elim (get_node_execution s.execution_id e) [
    | raised x ↦ raised x
    | ok n ↦ elim (has n.id seen) [
      | true ↦ visible_node e name seen ks
      | false ↦ elim (text_eq n.node name) [
        | true ↦ ok (some n)
        | false ↦ visible_node e name (n.id ∷ seen) ks
      ]
    ]
  ]
]

abbrev on_active : Option Uuid → NodeExecution → Bool
on_active none n = true
on_active (some a) n = option_eq n.branch_id (some a)

abbrev newer : NodeExecution → Option NodeExecution → Bool
newer n none = true
newer n (some m) = ltb m.created_at n.created_at

latest_node : Option Uuid → Text → Option NodeExecution → List NodeExecution → Option NodeExecution
latest_node active name latest [] = latest
latest_node active name latest (n ∷ ns) =
    latest_node active name
      (if text_eq n.node name && on_active active n && newer n latest then some n else latest) ns

unfoldable pub find_node_execution : Text → WorkflowExecution → Outcome (Option NodeExecution)
unfolding visible_node latest_node
find_node_execution name e = elim (visible_node e name [] (reverse e.step_ids)) [
  | raised x ↦ raised x
  | ok (some n) ↦ ok (some n)
  | ok none ↦ ok (latest_node e.active_branch_id name none (Dict.values e.node_executions))
]
