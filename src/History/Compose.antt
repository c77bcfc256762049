-- ===== src/History/Compose.antt =====
-- `HistoryManager.insert_step`, `fork_from_step`, `edit_user_input` and
-- `get_last_user_input_step`: changes that are made of the operations on steps and branches.
use codeng.Prelude.{
  Bool, true, false, Option, none, some, List, [], ◌∷◌, ◌&&◌, if◌then◌else◌, option_eq, not,
  reverse,
}
use codeng.Workflow.Data.{
  Uuid, Text, Step, Message, NodeExecution, WorkflowExecution, Role, user, StepType, rejection,
  tool_request, input_message,
}
use codeng.Workflow.Action.{
  Outcome, ok, raised, M, ◌>>=◌, ◌>>◌, pure, raise, read, gets, modify, fresh, value_error,
}
use codeng.Workflow.Access.{get_step, get_branch, get_node_execution, message_of, parent_of}
use codeng.History.Results.{HistoryMutationKind, HistoryMutationResult}
use codeng.History.Walk.{compute_removed_step_ids}
use codeng.History.Branches.{
  create_branch, refresh_step_ids, list_branch_summaries, id_lists_differ,
}
use codeng.History.Steps.{
  upsert_step, upsert_message, upsert_node_execution, claim_branch, on_step, on_branch,
}

abbrev child_fits : Option Uuid → Option Step → Bool
child_fits parent none = true
child_fits parent (some child) = option_eq child.parent_step_id parent

read_child : Option Uuid → M (Option Step)
unfolding get_step
read_child none = pure none
read_child (some k) = do child ← read (get_step k); pure (some child)

-- the base of the branch when a step was put before the child
abbrev moved_base : Option Uuid → Uuid → Option Uuid → Uuid → Option Uuid
moved_base base child none new = if option_eq base (some child) then some new else base
moved_base base child (some parent) new = base

-- the child is the stored object: its new parent is written before `upsert_step` sees it
reparent : Option Step → Option Uuid → Uuid → Option Uuid → Option Uuid → Step → M (List Step)
unfolding get_step upsert_step refresh_step_ids
reparent none parent branch_id head base s = pure []
reparent (some child) parent branch_id head base s = do
  modify (on_step child.id (λ c. record c { parent_step_id = some s.id }))
  moved ← read (get_step child.id)
  updated ← upsert_step moved
  modify (
      on_branch branch_id (λ b. record b {
        head_step_id = head;
        base_step_id = moved_base base child.id parent s.id;
      }))
  refresh_step_ids
  pure (updated ∷ [])

step_ids_of : List Step → List Uuid
step_ids_of [] = []
step_ids_of (s ∷ l) = s.id ∷ step_ids_of l

unfoldable pub insert_step : Step → Option Uuid → Option Uuid → M HistoryMutationResult
unfolding get_node_execution claim_branch get_branch read_child upsert_step reparent step_ids_of
    compute_removed_step_ids list_branch_summaries
insert_step new parent child_id = do
  before ← gets (λ e. e.step_ids)
  target ← read (get_node_execution new.execution_id)
  active ← gets (λ e. e.active_branch_id)
  branch_id ← elim (target.branch_id) [
    | some b ↦ pure b
    | none ↦ elim active [
      | none ↦ raise value_error
      | some a ↦ claim_branch target new.execution_id
    ]
  ]
  branch ← read (get_branch branch_id)
  child ← read_child child_id
  if not (child_fits parent child) then raise value_error else (do
    persisted ← upsert_step (record new { parent_step_id = parent })
    moved ← reparent child parent branch_id branch.head_step_id branch.base_step_id persisted
    after ← gets (λ e. e.step_ids)
    now_active ← gets (λ e. e.active_branch_id)
    summaries ← list_branch_summaries
    pure (record {
      changed = id_lists_differ before after;
      mutation_kind = some HistoryMutationKind.insert;
      active_branch_id = now_active;
      created_branch_id = none;
      removed_step_ids = compute_removed_step_ids before after;
      upserted_step_ids = step_ids_of (persisted ∷ moved);
      upserted_steps = persisted ∷ moved;
      branch_summaries = summaries;
    }))

-- the execution of the fork refers to the source as the previous one and has no messages of its own
unfoldable pub fork_node_execution : NodeExecution → Uuid → M NodeExecution
unfolding upsert_node_execution
fork_node_execution source branch_id = do
  (id, now) ← fresh
  upsert_node_execution (record {
    id = id;
    node = source.node;
    previous_id = some source.id;
    branch_id = some branch_id;
    input_message_ids = [];
    step_ids = [];
    status = source.status;
    state = source.state;
    created_at = now;
  })

-- the node execution that takes the step on the new branch
target_on_branch : NodeExecution → Uuid → Uuid → M Uuid
unfolding fork_node_execution
target_on_branch target execution_id branch_id =
    if option_eq target.branch_id (some branch_id)
    then pure execution_id
    else do forked ← fork_node_execution target branch_id; pure forked.id

unfoldable pub fork_from_step :
    Option Uuid → Step → Option Uuid → Option Text → Bool → M HistoryMutationResult
unfolding create_branch get_node_execution target_on_branch upsert_step compute_removed_step_ids
    list_branch_summaries
fork_from_step from new base label active = do
  before ← gets (λ e. e.step_ids)
  created ← create_branch from base label active
  target ← read (get_node_execution new.execution_id)
  execution_id ← target_on_branch target new.execution_id created.id
  persisted ← upsert_step (record new { execution_id = execution_id; parent_step_id = from })
  after ← gets (λ e. e.step_ids)
  now_active ← gets (λ e. e.active_branch_id)
  summaries ← list_branch_summaries
  pure (record {
    changed = true;
    mutation_kind = some HistoryMutationKind.fork;
    active_branch_id = now_active;
    created_branch_id = some created.id;
    removed_step_ids = compute_removed_step_ids before after;
    upserted_step_ids = persisted.id ∷ [];
    upserted_steps = persisted ∷ [];
    branch_summaries = summaries;
  })

abbrev is_input : StepType → Bool
is_input input_message = true
is_input _ = false

abbrev is_user : Role → Bool
is_user user = true
is_user _ = false

abbrev by_user : Option Message → Bool
by_user none = false
by_user (some m) = is_user m.role

last_input : WorkflowExecution → List Uuid → Outcome (Option Step)
unfolding get_step message_of
last_input e [] = ok none
last_input e (k ∷ ks) = elim (get_step k e) [
  | raised x ↦ raised x
  | ok s ↦ elim (message_of s e) [
    | raised x ↦ raised x
    | ok m ↦ elim (is_input s.type && by_user m) [ true ↦ ok (some s) | false ↦ last_input e ks ]
  ]
]

unfoldable pub get_last_user_input_step : WorkflowExecution → Outcome (Option Step)
unfolding last_input
get_last_user_input_step e = last_input e (reverse e.step_ids)

abbrev unchanged : HistoryMutationResult
unchanged = record {
  changed = false;
  mutation_kind = none;
  active_branch_id = none;
  created_branch_id = none;
  removed_step_ids = [];
  upserted_step_ids = [];
  upserted_steps = [];
  branch_summaries = [];
}

-- A rejected tool call is edited as a new message in place of the tool request.
abbrev replaces_request : StepType → Option Step → Bool
replaces_request rejection (some parent) = elim parent.type [ tool_request ↦ true | _ ↦ false ]
replaces_request _ _ = false

-- where the new step goes, and its type
abbrev replacement_parent : Step → Option Step → Option Uuid
replacement_parent target (some parent) =
    if replaces_request target.type (some parent)
    then parent.parent_step_id
    else target.parent_step_id
replacement_parent target none = target.parent_step_id

abbrev replacement_type : Step → Option Step → StepType
replacement_type target parent =
    if replaces_request target.type parent then input_message else target.type

replace_input : Step → Message → Text → M HistoryMutationResult
unfolding upsert_message parent_of fork_from_step
replace_input target m text = do
  (message_id, now) ← fresh
  replacement ← upsert_message (record m {
    id = message_id;
    text = text;
    input_mode = none;
    tool_call_requests = [];
    tool_call_responses = [];
    llm_usage = none;
    orig_llm_usage = none;
    state = none;
    created_at = now;
  })
  parent ← read (parent_of target)
  (id, created) ← fresh
  fork_from_step (replacement_parent target parent)
      (record target {
        id = id;
        parent_step_id = replacement_parent target parent;
        child_step_ids = [];
        type = replacement_type target parent;
        message_id = some replacement.id;
        debug = none;
        is_auxiliary = false;
        is_final = false;
        created_at = created;
      })
      (some target.id) none true

unfoldable pub edit_user_input : Uuid → Text → M HistoryMutationResult
unfolding get_step message_of replace_input
edit_user_input step_id text = do
  target ← read (get_step step_id)
  message ← read (message_of target)
  elim message [
    | none ↦ pure unchanged
    | some m ↦ if is_user m.role then replace_input target m text else pure unchanged
  ]
