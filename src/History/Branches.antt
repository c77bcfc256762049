-- ===== src/History/Branches.antt =====
-- The branches of `HistoryManager`: the default branch, the visible ids of each branch and node
-- execution, `create_branch` and `switch_branch`.
pub mod Refresh
pub mod Switch
use codeng.Prelude.{
  Bool, true, false, Option, none, some, List, [], ◌∷◌, ◌==◌, ltb, ◌||◌, if◌then◌else◌, last?,
  option_eq, not, map, get_elem?,
}
use codeng.Prelude.Dict
use codeng.Prelude.Dict.{Dict}
use codeng.Workflow.Data.{Uuid, Text, Step, BranchRecord, NodeExecution, WorkflowExecution}
use codeng.Workflow.Action.{Outcome, ok, raised, M, ◌>>=◌, ◌>>◌, pure, read, gets, modify, fresh}
use codeng.Workflow.Access.{get_step, get_branch, gather}
use codeng.History.Results.{HistoryMutationKind, HistoryBranchSummary, HistoryMutationResult}
use codeng.History.Walk.{compute_branch_step_ids, get_path_from_head, compute_removed_step_ids}

abbrev pub active_record : WorkflowExecution → Option BranchRecord
active_record e = elim e.active_branch_id [ none ↦ none | some k ↦ Dict.get k e.branches_by_id ]

abbrev pub activate : Uuid → WorkflowExecution → WorkflowExecution
activate k e = record e { active_branch_id = some k }

abbrev pub add_branch : BranchRecord → WorkflowExecution → WorkflowExecution
add_branch b e = record e { branches_by_id = Dict.put b.id b e.branches_by_id }

abbrev pub last_id : List Step → Option Uuid
last_id steps = elim (last? steps) [ none ↦ none | some s ↦ some s.id ]

-- a branch over the steps that are there, its head the step that was added last
unfoldable pub initial_branch : M BranchRecord
unfolding get_path_from_head
initial_branch = do
  steps ← gets (λ e. Dict.values e.steps_by_id)
  let head_step_id = last_id steps
  path ← read (get_path_from_head head_step_id)
  (id, now) ← fresh
  let branch : BranchRecord = record {
    id = id;
    head_step_id = head_step_id;
    base_step_id = get_elem? path 0;
    label = none;
    created_at = now;
  }
  modify (add_branch branch)
  modify (activate branch.id)
  pure branch

-- the active branch; if there is none, the first one, which becomes active; if there is none, a new
-- one
unfoldable pub ensure_default_branch : M BranchRecord
unfolding initial_branch
ensure_default_branch w = elim (active_record w.execution) [
  | some b ↦ (ok b, w)
  | none ↦ elim (Dict.values w.execution.branches_by_id) [
    | b ∷ _ ↦ (ok b, record w { execution = activate b.id w.execution })
    | [] ↦ initial_branch w
  ]
]

-- those of the ids whose step belongs to the node execution
unfoldable pub owned : WorkflowExecution → Uuid → List Uuid → Outcome (List Uuid)
unfolding get_step
owned e execution_id [] = ok []
owned e execution_id (k ∷ ks) = elim (get_step k e) [
  | raised x ↦ raised x
  | ok s ↦ elim (owned e execution_id ks) [
    | raised x ↦ raised x
    | ok rest ↦ ok (if s.execution_id == execution_id then k ∷ rest else rest)
  ]
]

unfoldable pub node_step_ids : WorkflowExecution → NodeExecution → Outcome (List Uuid)
unfolding compute_branch_step_ids owned
node_step_ids e n = elim n.branch_id [
  | none ↦ ok []
  | some b ↦ elim (compute_branch_step_ids b e) [ raised x ↦ raised x | ok ids ↦ owned e n.id ids ]
]

-- the loop over the node executions; those behind one that raises keep what they had
unfoldable pub refresh_nodes :
    WorkflowExecution → Dict NodeExecution → Outcome (Unit {0}) × Dict NodeExecution
unfolding node_step_ids
refresh_nodes e [] = (ok tt, [])
refresh_nodes e ((k, n) ∷ d) = elim (node_step_ids e n) [
  | raised x ↦ (raised x, (k, n) ∷ d)
  | ok ids ↦ let rest = refresh_nodes e d in (rest.0, (k, record n { step_ids = ids }) ∷ rest.1)
]

unfoldable pub refresh_all_nodes : M (Unit {0})
unfolding refresh_nodes
refresh_all_nodes w =
    let (r, nodes) = refresh_nodes w.execution w.execution.node_executions in
    (r, record w { execution = record w.execution { node_executions = nodes } })

unfoldable pub refresh_step_ids : M (Unit {0})
refresh_step_ids = do
  branch ← ensure_default_branch
  ids ← read (compute_branch_step_ids branch.id)
  modify (λ e. record e { step_ids = ids })
  refresh_all_nodes

-- Python's `sorted`, which is stable
insert_by_created_at : BranchRecord → List BranchRecord → List BranchRecord
insert_by_created_at a [] = a ∷ []
insert_by_created_at a (b ∷ bs) =
    if ltb b.created_at a.created_at then b ∷ insert_by_created_at a bs else a ∷ b ∷ bs

sort_by_created_at : List BranchRecord → List BranchRecord
unfolding insert_by_created_at
sort_by_created_at [] = []
sort_by_created_at (b ∷ bs) = insert_by_created_at b (sort_by_created_at bs)

summary : Option Uuid → BranchRecord → HistoryBranchSummary
summary active b = record {
  id = b.id;
  head_step_id = b.head_step_id;
  base_step_id = b.base_step_id;
  label = b.label;
  created_at = b.created_at;
  is_active = option_eq (some b.id) active;
}

unfoldable pub list_branch_summaries : M (List HistoryBranchSummary)
unfolding ensure_default_branch sort_by_created_at summary
list_branch_summaries = do
  ensure_default_branch
  gets (λ e. map (summary e.active_branch_id) (sort_by_created_at (Dict.values e.branches_by_id)))

unfoldable pub create_branch : Option Uuid → Option Uuid → Option Text → Bool → M BranchRecord
unfolding ensure_default_branch refresh_step_ids
create_branch head_step_id base_step_id label active = do
  ensure_default_branch
  (id, now) ← fresh
  let branch : BranchRecord = record {
    id = id;
    head_step_id = head_step_id;
    base_step_id = base_step_id;
    label = label;
    created_at = now;
  }
  modify (add_branch branch)
  if active then (modify (activate branch.id) >> refresh_step_ids) else pure tt
  pure branch

abbrev pub id_lists_differ : List Uuid → List Uuid → Bool
id_lists_differ [] [] = false
id_lists_differ (x ∷ xs) (y ∷ ys) = not (x == y) || id_lists_differ xs ys
id_lists_differ _ _ = true

-- the result for the branch that became active, from the ids that were visible before
unfoldable pub report_switch : List Uuid → Uuid → M HistoryMutationResult
unfolding list_branch_summaries compute_removed_step_ids gather get_step
report_switch before branch_id = do
  after ← gets (λ e. e.step_ids)
  let added = compute_removed_step_ids after before
  steps ← read (λ e. gather (λ k. get_step k e) added)
  summaries ← list_branch_summaries
  pure (record {
    changed = id_lists_differ before after;
    mutation_kind = some HistoryMutationKind.switch_branch;
    active_branch_id = some branch_id;
    created_branch_id = none;
    removed_step_ids = compute_removed_step_ids before after;
    upserted_step_ids = added;
    upserted_steps = steps;
    branch_summaries = summaries;
  })

unfoldable pub switch_branch : Uuid → M HistoryMutationResult
switch_branch branch_id = do
  before ← gets (λ e. e.step_ids)
  branch ← read (get_branch branch_id)
  modify (activate branch.id)
  refresh_step_ids
  report_switch before branch.id
