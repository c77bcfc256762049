-- ===== src/History/Tests.antt =====
-- The history on concrete runs: two steps on the branch that `ensure_default_branch` makes.
use codeng.Prelude.{◌≡◌, ◌≢◌, refl, none, some, [], ◌∷◌, ◌+◌, true, false, Option, List, subst}
use codeng.Prelude.Dict
use codeng.Workflow.Data.{
  WorkflowExecution, NodeExecution, Step, RunStatus, output_message, markdown, show, Uuid,
  BranchRecord,
}
use codeng.Workflow.Action.{World, M, ◌>>◌, ok, raised, diverged, gets}
use codeng.Workflow.Access.{gather, get_step, get_branch, get_node_execution}
use codeng.History.Walk.{
  compute_removed_step_ids, branch_path, head_path, compute_branch_step_ids, get_path_from_head,
}
use codeng.History.Walk.Shows.{Shows}
use codeng.History.Walk.Chain.{IsHistory, compute_branch_step_ids-IsHistory}
use codeng.History.Walk.Fuel.{compute_branch_step_ids-ne-diverged, get_path_from_head_returns}
use codeng.History.Branches.{
  ensure_default_branch, initial_branch, switch_branch, report_switch, list_branch_summaries, owned,
  refresh_step_ids, refresh_all_nodes, refresh_nodes,
}
use codeng.History.Branches.Refresh.{refresh_step_ids-Shows}
use codeng.History.Steps.{
  upsert_node_execution, upsert_step, upsert_over, upsert_on_branch, place_step, unlink, link,
  project, settle_head, settle_base, root_base, append_step_projection, append_both, append_visible,
  append_owned, claim_branch,
}
use codeng.History.Results.{HistoryMutationKind, HistoryMutationResult}
use codeng.History.Branches.Switch.{IsSwitch, switch_branch-IsSwitch}
use codeng.History.Steps.Ends.{upsert_step-ne-diverged}
use codeng.History.Steps.View.{upsert_step-Shows}

abbrev empty : WorkflowExecution
empty = record {
  id = 0;
  workflow_name = [];
  node_executions = [];
  steps_by_id = [];
  messages_by_id = [];
  branches_by_id = [];
  active_branch_id = none;
  step_ids = [];
  llm_usage = none;
  last_step_llm_usage = none;
  last_user_input_at = none;
  state = 0;
  created_at = 0;
  updated_at = 0;
}

abbrev start : World
start = record { execution = empty; calls = 0; uuid4 = λ n. 1000 + n; utcnow = λ n. n }

abbrev node : Uuid → NodeExecution
node k = record {
  id = k;
  node = [];
  previous_id = none;
  branch_id = none;
  input_message_ids = [];
  step_ids = [];
  status = RunStatus.running;
  state = none;
  created_at = 0;
}

abbrev step : Uuid → Uuid → Step
step k n = record {
  id = k;
  execution_id = n;
  parent_step_id = none;
  child_step_ids = [];
  type = output_message;
  message_id = none;
  content_type = markdown;
  output_mode = show;
  outcome_name = none;
  state = none;
  status_hint = none;
  llm_usage = none;
  debug = none;
  is_complete = true;
  is_auxiliary = false;
  is_final = false;
  created_at = 0;
}

-- what the interpreter needs to run `upsert_node_execution` and `upsert_step`
program : Unit {0}
unfolding upsert_step upsert_over upsert_on_branch place_step unlink link project settle_head
    settle_base root_base append_step_projection append_both append_visible append_owned
    claim_branch upsert_node_execution ensure_default_branch initial_branch refresh_step_ids
    refresh_all_nodes refresh_nodes compute_branch_step_ids branch_path get_path_from_head head_path
    Dict.get Dict.put Dict.adjust Dict.values get_step get_branch get_node_execution
program = tt

abbrev three : M (List Uuid)
three = do
  upsert_node_execution (node 1)
  upsert_step (step 11 1)
  upsert_step (step 12 1)
  upsert_step (step 13 1)
  gets (λ e. e.step_ids)

three_steps : (three start).0 ≡ ok (11 ∷ 12 ∷ 13 ∷ [])
unfolding program
three_steps = refl

-- one step on one branch
abbrev main : BranchRecord
main = record {
  id = 7;
  head_step_id = some 11;
  base_step_id = some 11;
  label = none;
  created_at = 0;
}

abbrev one_step : WorkflowExecution
one_step = record empty {
  node_executions = (1, record (node 1) { branch_id = some 7; step_ids = 11 ∷ [] }) ∷ [];
  steps_by_id = (11, step 11 1) ∷ [];
  branches_by_id = (7, main) ∷ [];
  active_branch_id = some 7;
  step_ids = 11 ∷ [];
}

abbrev before : World
before = record start { execution = one_step }

abbrev after : World
after = record start {
  execution = record one_step {
    node_executions = (1, record (node 1) { branch_id = some 7; step_ids = 11 ∷ 12 ∷ [] }) ∷ [];
    steps_by_id =
        (11, record (step 11 1) { child_step_ids = 12 ∷ [] })
        ∷ (12, record (step 12 1) { parent_step_id = some 11 })
        ∷ [];
    branches_by_id = (7, record main { head_step_id = some 12 }) ∷ [];
    step_ids = 11 ∷ 12 ∷ [];
  };
}

before-Shows : Shows one_step
unfolding program
before-Shows = record {
  active = 7;
  is_active = refl;
  computed = refl;
  keyed = λ b h.
      subst (λ (o : Option BranchRecord). elim o [ none ↦ Unit {0} | some b ↦ b.id ≡ 7 ]) h refl;
}

adds_step :
    upsert_step (step 12 1) before ≡ (ok (record (step 12 1) { parent_step_id = some 11 }), after)
unfolding program
adds_step = refl

upsert_step-Shows_example : Shows after.execution
unfolding Dict.get
upsert_step-Shows_example =
    upsert_step-Shows (step 12 1) (record (step 12 1) { parent_step_id = some 11 }) before after
      before-Shows refl adds_step

compute_branch_step_ids-IsHistory_example : IsHistory after.execution (some 12) (11 ∷ 12 ∷ [])
unfolding program
compute_branch_step_ids-IsHistory_example =
    compute_branch_step_ids-IsHistory 7 after.execution (record main { head_step_id = some 12 })
      (11 ∷ 12 ∷ []) refl refl

-- two steps that are each other's parent
abbrev cycle : WorkflowExecution
cycle = record one_step {
  steps_by_id =
      (11, record (step 11 1) { parent_step_id = some 12 })
      ∷ (12, record (step 12 1) { parent_step_id = some 11 })
      ∷ [];
}

compute_branch_step_ids-ne-diverged_example : compute_branch_step_ids 7 cycle ≢ raised diverged
compute_branch_step_ids-ne-diverged_example = compute_branch_step_ids-ne-diverged 7 cycle

get_path_from_head_returns_example :
    (ids : List Uuid) × (get_path_from_head (some 12) cycle ≡ ok ids)
get_path_from_head_returns_example = get_path_from_head_returns (some 12) cycle

refresh_step_ids-Shows_example : Shows (refresh_step_ids after).1.execution
unfolding program
refresh_step_ids-Shows_example =
    refresh_step_ids-Shows after (refresh_step_ids after).1 7
      (record main { head_step_id = some 12 }) refl refl refl refl

upsert_step-ne-diverged_example :
    (upsert_step (step 13 1) (record before { execution = cycle })).0 ≢ raised diverged
upsert_step-ne-diverged_example =
    upsert_step-ne-diverged (step 13 1) (record before { execution = cycle })

-- branch 7 ends with step 12, and branch 8 with step 13
abbrev side : BranchRecord
side = record main { id = 8; head_step_id = some 13; created_at = 1 }

abbrev forked : World
forked = record after {
  execution = record after.execution {
    steps_by_id =
        (11, record (step 11 1) { child_step_ids = 12 ∷ 13 ∷ [] })
        ∷ (12, record (step 12 1) { parent_step_id = some 11 })
        ∷ (13, record (step 13 1) { parent_step_id = some 11 })
        ∷ [];
    branches_by_id = (7, record main { head_step_id = some 12 }) ∷ (8, side) ∷ [];
  };
}

abbrev switched : World
switched = record forked {
  execution = record forked.execution { active_branch_id = some 8; step_ids = 11 ∷ 13 ∷ [] };
}

abbrev switch_result : HistoryMutationResult
switch_result = record {
  changed = true;
  mutation_kind = some HistoryMutationKind.switch_branch;
  active_branch_id = some 8;
  created_branch_id = none;
  removed_step_ids = 12 ∷ [];
  upserted_step_ids = 13 ∷ [];
  upserted_steps = record (step 13 1) { parent_step_id = some 11 } ∷ [];
  branch_summaries =
      record {
        id = 7;
        head_step_id = some 12;
        base_step_id = some 11;
        label = none;
        created_at = 0;
        is_active = false;
      }
      ∷ record {
        id = 8;
        head_step_id = some 13;
        base_step_id = some 11;
        label = none;
        created_at = 1;
        is_active = true;
      }
      ∷ [];
}

switches : switch_branch 8 forked ≡ (ok switch_result, switched)
unfolding switch_branch report_switch gather list_branch_summaries compute_removed_step_ids owned
    program
switches = refl

switch_branch-IsSwitch_example : IsSwitch 8 switch_result forked switched
unfolding Dict.get
switch_branch-IsSwitch_example =
    switch_branch-IsSwitch 8 side forked switched switch_result refl refl switches
