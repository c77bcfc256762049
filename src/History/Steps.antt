-- ===== src/History/Steps.antt =====
-- `HistoryManager.upsert_message`, `upsert_node_execution`, `upsert_step` and what they call. An
-- object that the code mutates through a reference is the one in its dictionary, which is read
-- again where the code reads a field after a write.
pub mod Stages
pub mod Settle
pub mod Upsert
pub mod View
pub mod Ends
use codeng.Prelude.{
  Bool, true, false, Option, none, some, List, [], ◌∷◌, ◌++◌, ◌==◌, ◌&&◌, ◌||◌, if◌then◌else◌,
  last?, option_eq, not, has, is_empty, keep, get_or,
}
use codeng.Prelude.Dict
use codeng.Workflow.Data.{Uuid, Step, Message, BranchRecord, NodeExecution, WorkflowExecution}
use codeng.Workflow.Action.{M, ◌>>=◌, ◌>>◌, pure, raise, read, gets, modify, found, key_error}
use codeng.Workflow.Access.{get_step, get_branch, get_node_execution}
use codeng.History.Walk.{get_path_from_head}
use codeng.History.Branches.{ensure_default_branch, refresh_step_ids}

abbrev pub on_step : Uuid → (Step → Step) → WorkflowExecution → WorkflowExecution
on_step k f e = record e { steps_by_id = Dict.adjust k f e.steps_by_id }

abbrev pub on_node : Uuid → (NodeExecution → NodeExecution) → WorkflowExecution → WorkflowExecution
on_node k f e = record e { node_executions = Dict.adjust k f e.node_executions }

abbrev pub on_branch : Uuid → (BranchRecord → BranchRecord) → WorkflowExecution → WorkflowExecution
on_branch k f e = record e { branches_by_id = Dict.adjust k f e.branches_by_id }

abbrev pub store_step : Step → WorkflowExecution → WorkflowExecution
store_step s e = record e { steps_by_id = Dict.put s.id s e.steps_by_id }

abbrev pub without_id : Uuid → List Uuid → List Uuid
without_id k = keep (λ j. not (j == k))

abbrev pub add_visible : Uuid → WorkflowExecution → WorkflowExecution
add_visible k e = record e { step_ids = e.step_ids ++ k ∷ [] }

abbrev pub add_owned : Uuid → NodeExecution → NodeExecution
add_owned k n = record n { step_ids = n.step_ids ++ k ∷ [] }

abbrev pub set_head : Uuid → BranchRecord → BranchRecord
set_head k b = record b { head_step_id = some k }

abbrev pub set_base : Uuid → BranchRecord → BranchRecord
set_base k b = record b { base_step_id = some k }

abbrev pub is_none {ℓ} : {A : Type ℓ} → Option A → Bool
is_none none = true
is_none (some a) = false

-- the head moves to the step, which is also the base of a branch that has none
abbrev pub advance : Step → BranchRecord → BranchRecord
advance s b = record b {
  head_step_id = some s.id;
  base_step_id = elim b.base_step_id [ none ↦ some s.id | some k ↦ some k ];
}

-- what `execution.step_ids` must end with for the step to follow it
abbrev pub follows : Step → List Uuid → Bool
follows s visible = option_eq (last? visible) s.parent_step_id

unfoldable pub append_visible : Uuid → Step → M Bool
append_visible branch_id s = do
  e ← gets (λ e. e)
  if option_eq e.active_branch_id (some branch_id)
      then (if follows s e.step_ids then (modify (add_visible s.id) >> pure true) else pure false)
      else pure true

unfoldable pub append_owned : Uuid → Step → M Bool
unfolding get_node_execution
append_owned branch_id s = do
  read (get_node_execution s.execution_id)
  modify (on_node s.execution_id (add_owned s.id))
  modify (on_branch branch_id (advance s))
  pure true

unfoldable pub append_both : Uuid → Step → M Bool
append_both branch_id s = do
  fits ← append_visible branch_id s
  if fits then append_owned branch_id s else pure false

unfoldable pub append_step_projection : Uuid → Step → M Bool
append_step_projection branch_id s = do
  branch ← read (get_branch branch_id)
  if option_eq branch.head_step_id s.parent_step_id then append_both branch_id s else pure false

unfoldable pub upsert_message : Message → M Message
upsert_message m = do
  modify (λ e. record e { messages_by_id = Dict.put m.id m e.messages_by_id })
  pure m

-- the stored node execution gives the ids and the branch that the new one lacks
abbrev merge_node : Option NodeExecution → Option Uuid → NodeExecution → NodeExecution
merge_node existing active n = record n {
  step_ids = elim existing [
    | none ↦ n.step_ids
    | some old ↦ if is_empty n.step_ids then old.step_ids else n.step_ids
  ];
  branch_id = elim n.branch_id [
    | some b ↦ some b
    | none ↦ elim existing [
      | none ↦ active
      | some old ↦ elim old.branch_id [ some b ↦ some b | none ↦ active ]
    ]
  ];
}

unfoldable pub upsert_node_execution : NodeExecution → M NodeExecution
unfolding ensure_default_branch
upsert_node_execution n = do
  ensure_default_branch
  merged ← gets (λ e. merge_node (Dict.get n.id e.node_executions) e.active_branch_id n)
  modify (λ e. record e { node_executions = Dict.put merged.id merged e.node_executions })
  pure merged

-- a node execution without a branch joins the active one
unfoldable pub claim_branch : NodeExecution → Uuid → M Uuid
claim_branch n execution_id = elim n.branch_id [
  | some b ↦ pure b
  | none ↦ (do
    active ← read (λ e. found e.active_branch_id)
    modify (on_node execution_id (λ m. record m { branch_id = some active }))
    pure active)
]

abbrev pub missing_message : Step → WorkflowExecution → Bool
missing_message s e = elim s.message_id [
  | none ↦ false
  | some m ↦ is_none (Dict.get m e.messages_by_id)
]

-- an old version of the step leaves the node execution and the parent that it had
abbrev pub leave_node : Step → Step → M (Unit {0})
leave_node old s = if old.execution_id == s.execution_id then pure tt else do
  read (get_node_execution old.execution_id)
  modify (on_node old.execution_id (λ n. record n { step_ids = without_id s.id n.step_ids }))

abbrev pub leave_parent_of : Option Uuid → Step → M (Unit {0})
leave_parent_of none s = pure tt
leave_parent_of (some p) s =
    modify (on_step p (λ q. record q { child_step_ids = without_id s.id q.child_step_ids }))

unfoldable pub unlink : Option Step → Step → M (Unit {0})
unlink none s = pure tt
unlink (some old) s = do
  leave_node old s
  if option_eq old.parent_step_id s.parent_step_id
      then pure tt
      else leave_parent_of old.parent_step_id s

abbrev pub add_child : Uuid → Step → Step
add_child k p = record p {
  child_step_ids = if has k p.child_step_ids then p.child_step_ids else p.child_step_ids ++ k ∷ [];
}

unfoldable pub link : Step → M (Unit {0})
unfolding get_step
link s = elim s.parent_step_id [
  | none ↦ pure tt
  | some p ↦ read (get_step p) >> modify (on_step p (add_child s.id))
]

-- the step id goes to the node execution's list if it is not there
abbrev pub ensure_owned : Uuid → NodeExecution → NodeExecution
ensure_owned k n = if has k n.step_ids then n else add_owned k n

unfoldable pub project : Option Step → Uuid → Step → M Bool
project (some old) branch_id s = do modify (on_node s.execution_id (ensure_owned s.id)); pure false
project none branch_id s = do
  appended ← append_step_projection branch_id s
  if appended then pure tt else modify (on_node s.execution_id (ensure_owned s.id))
  pure appended

-- the base of a branch is the root of the path to the step, if it had no base or had the step
abbrev pub needs_base : BranchRecord → Step → Bool
needs_base b s = is_none b.base_step_id || option_eq b.base_step_id (some s.id)

unfoldable pub root_base : Uuid → Step → M (Unit {0})
root_base branch_id s = do
  path ← read (get_path_from_head (some s.id))
  modify (on_branch branch_id (set_base (get_or path 0 s.id)))

unfoldable pub settle_base : Uuid → Step → M (Unit {0})
settle_base branch_id s = do
  branch ← read (get_branch branch_id)
  if needs_base branch s then root_base branch_id s else pure tt

unfoldable pub settle_head : Bool → Uuid → Step → M (Unit {0})
settle_head outside branch_id s = do
  branch ← read (get_branch branch_id)
  if outside || option_eq branch.head_step_id (some s.id)
      then modify (on_branch branch_id (set_head s.id))
      else pure tt

abbrev pub should_refresh : Option Step → Bool → Step → Bool
should_refresh none appended s = not appended
should_refresh (some old) appended s =
    not ((old.execution_id == s.execution_id) && option_eq old.parent_step_id s.parent_step_id)

-- a new step with no parent follows the head of its branch
abbrev pub attach : Option Step → BranchRecord → Step → Step
attach (some old) b s = s
attach none b s = elim s.parent_step_id [
  | some p ↦ s
  | none ↦ record s { parent_step_id = b.head_step_id }
]

-- what follows once the branch and the parent of the step are known
unfoldable pub place_step : Option Step → Uuid → Step → M Step
place_step existing branch_id s = do
  unlink existing s
  link s
  modify (store_step s)
  appended ← project existing branch_id s
  settle_head (is_none existing && not appended) branch_id s
  settle_base branch_id s
  if should_refresh existing appended s then refresh_step_ids else pure tt
  pure s

unfoldable pub upsert_on_branch : Option Step → Step → Uuid → M Step
upsert_on_branch existing s branch_id = do
  branch ← read (get_branch branch_id)
  unknown ← gets (missing_message s)
  if unknown then raise key_error else place_step existing branch_id (attach existing branch s)

unfoldable pub upsert_over : Option Step → Step → M Step
upsert_over existing s = do
  node ← read (get_node_execution s.execution_id)
  branch_id ← claim_branch node s.execution_id
  upsert_on_branch existing s branch_id

unfoldable pub upsert_step : Step → M Step
upsert_step s = do
  ensure_default_branch
  existing ← gets (λ e. Dict.get s.id e.steps_by_id)
  upsert_over existing s
