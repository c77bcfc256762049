-- ===== src/Workflow/Access.antt =====
-- The accessors of `WorkflowExecution`, `NodeExecution` and `Step` in src/vocode/state.py. An
-- iterator or a tuple of steps is the list of them; it raises if one of its ids is unknown.
use codeng.Prelude.{
  ℕ, suc, ◌+◌, ◌-◌, Option, none, some, List, [], ◌∷◌, reverse, ◌==◌, leb, if◌then◌else◌, length,
  get_elem?, last?,
}
use codeng.Prelude.Dict
use codeng.Workflow.Data.{
  Uuid, Timestamp, Message, BranchRecord, NodeExecution, Step, WorkflowExecution,
}
use codeng.Workflow.Action.{Outcome, ok, raised, key_error, value_error, found}

unfoldable pub get_step : Uuid → WorkflowExecution → Outcome Step
get_step step_id e = found (Dict.get step_id e.steps_by_id)

unfoldable pub get_message : Uuid → WorkflowExecution → Outcome Message
get_message message_id e = found (Dict.get message_id e.messages_by_id)

unfoldable pub get_node_execution : Uuid → WorkflowExecution → Outcome NodeExecution
get_node_execution execution_id e = found (Dict.get execution_id e.node_executions)

unfoldable pub get_branch : Uuid → WorkflowExecution → Outcome BranchRecord
get_branch branch_id e = found (Dict.get branch_id e.branches_by_id)

-- one `get` for each id, in order; the first failure is raised
cons_outcome {ℓ} : {A : Type ℓ} → Outcome A → Outcome (List A) → Outcome (List A)
cons_outcome (ok a) (ok l) = ok (a ∷ l)
cons_outcome (ok a) (raised x) = raised x
cons_outcome (raised x) rest = raised x

unfoldable pub gather {ℓ} : {A : Type ℓ} → (Uuid → Outcome A) → List Uuid → Outcome (List A)
unfolding cons_outcome
gather f [] = ok []
gather f (k ∷ ks) = cons_outcome (f k) (gather f ks)

unfoldable pub iter_steps : WorkflowExecution → Outcome (List Step)
unfolding gather get_step
iter_steps e = gather (λ k. get_step k e) e.step_ids

unfoldable pub iter_steps_reversed : WorkflowExecution → Outcome (List Step)
unfolding gather get_step
iter_steps_reversed e = gather (λ k. get_step k e) (reverse e.step_ids)

unfoldable pub iter_node_steps : Uuid → WorkflowExecution → Outcome (List Step)
unfolding gather get_step get_node_execution
iter_node_steps execution_id e = elim (get_node_execution execution_id e) [
  | ok n ↦ gather (λ k. get_step k e) n.step_ids
  | raised x ↦ raised x
]

unfoldable pub iter_node_steps_reversed : Uuid → WorkflowExecution → Outcome (List Step)
unfolding gather get_step get_node_execution
iter_node_steps_reversed execution_id e = elim (get_node_execution execution_id e) [
  | ok n ↦ gather (λ k. get_step k e) (reverse n.step_ids)
  | raised x ↦ raised x
]

unfoldable pub iter_all_steps : WorkflowExecution → List Step
iter_all_steps e = Dict.values e.steps_by_id

unfoldable pub iter_all_steps_reversed : WorkflowExecution → List Step
unfolding iter_all_steps
iter_all_steps_reversed e = reverse (iter_all_steps e)

abbrev pub get_step_ids : WorkflowExecution → List Uuid
get_step_ids e = e.step_ids

unfoldable pub get_steps : WorkflowExecution → Outcome (List Step)
unfolding iter_steps
get_steps e = iter_steps e

abbrev optional {ℓ} : {A : Type ℓ} → (Uuid → Outcome A) → Option Uuid → Outcome (Option A)
optional f none = ok none
optional f (some k) = elim (f k) [ ok a ↦ ok (some a) | raised x ↦ raised x ]

unfoldable pub get_first_step : WorkflowExecution → Outcome (Option Step)
unfolding get_step
get_first_step e = optional (λ k. get_step k e) (get_elem? e.step_ids 0)

unfoldable pub get_last_step : WorkflowExecution → Outcome (Option Step)
unfolding get_step
get_last_step e = optional (λ k. get_step k e) (last? e.step_ids)

-- `list.index`, which raises `ValueError`
unfoldable pub index : Uuid → List Uuid → Outcome ℕ
index k [] = raised value_error
index k (x ∷ xs) =
    let rest = index k xs in
    if x == k then ok 0 else elim rest [ ok i ↦ ok (suc i) | raised e ↦ raised e ]

unfoldable pub get_step_index : Uuid → WorkflowExecution → Outcome ℕ
unfolding index
get_step_index step_id e = index step_id e.step_ids

unfoldable pub get_previous_step : Uuid → WorkflowExecution → Outcome (Option Step)
unfolding get_step get_step_index
get_previous_step step_id e = elim (get_step_index step_id e) [
  | ok i ↦ if i == 0 then ok none else optional (λ k. get_step k e) (get_elem? e.step_ids (i - 1))
  | raised x ↦ raised x
]

unfoldable pub get_next_step : Uuid → WorkflowExecution → Outcome (Option Step)
unfolding get_step get_step_index
get_next_step step_id e = elim (get_step_index step_id e) [
  | ok i ↦
      if leb (length e.step_ids) (i + 1)
      then ok none
      else optional (λ k. get_step k e) (get_elem? e.step_ids (i + 1))
  | raised x ↦ raised x
]

unfoldable pub get_active_branch : WorkflowExecution → Outcome BranchRecord
unfolding get_branch
get_active_branch e = elim e.active_branch_id [ none ↦ raised key_error | some k ↦ get_branch k e ]

-- `Step.message` and `Step.parent` of a step that is attached to `e`
unfoldable pub message_of : Step → WorkflowExecution → Outcome (Option Message)
unfolding get_message
message_of s e = optional (λ k. get_message k e) s.message_id

unfoldable pub parent_of : Step → WorkflowExecution → Outcome (Option Step)
unfolding get_step
parent_of s e = optional (λ k. get_step k e) s.parent_step_id

unfoldable pub children_of : Step → WorkflowExecution → Outcome (List Step)
unfolding gather get_step
children_of s e = gather (λ k. get_step k e) s.child_step_ids

unfoldable pub execution_of : Step → WorkflowExecution → Outcome NodeExecution
unfolding get_node_execution
execution_of s e = get_node_execution s.execution_id e

-- `NodeExecution.previous` and `NodeExecution.input_messages`
unfoldable pub previous_of : NodeExecution → WorkflowExecution → Outcome (Option NodeExecution)
unfolding get_node_execution
previous_of n e = optional (λ k. get_node_execution k e) n.previous_id

unfoldable pub input_messages : NodeExecution → WorkflowExecution → Outcome (List Message)
unfolding gather get_message
input_messages n e = gather (λ k. get_message k e) n.input_message_ids

unfoldable pub touch : Timestamp → WorkflowExecution → WorkflowExecution
touch now e = record e { updated_at = now }
