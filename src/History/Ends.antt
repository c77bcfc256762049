-- ===== src/History/Ends.antt =====
-- Actions of the history that end: none of their loops runs for ever, whatever the state. They may
-- raise on an id that is not there.
use codeng.Prelude.{
  ◌≡◌, ◌≢◌, refl, arith, Bool, true, false, Option, none, some, List, [], ◌∷◌, if◌then◌else◌, inl,
  inr, Option-cases,
}
use codeng.Prelude.Dict
use codeng.Workflow.Data.{Uuid, NodeExecution, WorkflowExecution, BranchRecord}
use codeng.Workflow.Action.{Outcome, ok, raised, diverged, World, M, read, found, bind-ne}
use codeng.Workflow.Access.{get_step, get_branch, get_node_execution}
use codeng.History.Walk.{compute_branch_step_ids, get_path_from_head}
use codeng.History.Walk.Fuel.{compute_branch_step_ids-ne-diverged, get_path_from_head_returns}
use codeng.History.Branches.{
  active_record, last_id, initial_branch, ensure_default_branch, owned, node_step_ids,
  refresh_nodes, refresh_all_nodes, refresh_step_ids,
}

abbrev pub Ends : {A : Type 0} → M A → Type 0
Ends m = (w : World) → (m w).0 ≢ raised diverged

abbrev pub Found : {A : Type 0} → (WorkflowExecution → Outcome A) → Type 0
Found f = (e : WorkflowExecution) → f e ≢ raised diverged

module _ {A : Type 0} where
  pub if-Ends : (b : Bool) (m n : M A) → Ends m → Ends n → Ends (if b then m else n)
  if-Ends true m n h k = h
  if-Ends false m n h k = k

  pub found-ne-diverged : (o : Option A) → found o ≢ raised diverged
  found-ne-diverged none = λ p. ground arith
  found-ne-diverged (some a) = λ p. ground arith

pub ok-ne-diverged {ℓ} : {A : Type ℓ} (a : A) → ok a ≢ raised diverged
ok-ne-diverged a = λ p. ground arith

pub get_step-Found : (k : Uuid) → Found (get_step k)
unfolding get_step
get_step-Found k e = found-ne-diverged _

pub get_branch-Found : (k : Uuid) → Found (get_branch k)
unfolding get_branch
get_branch-Found k e = found-ne-diverged _

pub get_node_execution-Found : (k : Uuid) → Found (get_node_execution k)
unfolding get_node_execution
get_node_execution-Found k e = found-ne-diverged _

pub get_path_from_head-Found : (k : Option Uuid) → Found (get_path_from_head k)
get_path_from_head-Found k e = let (ids, p) = get_path_from_head_returns k e in rw p cc

initial_branch-Ends : Ends initial_branch
unfolding initial_branch
initial_branch-Ends w =
    bind-ne diverged (read (get_path_from_head (last_id (Dict.values w.execution.steps_by_id)))) _ w
      (get_path_from_head-Found _ w.execution) (λ path w1. ok-ne-diverged _)

unstored-Ends :
    (w : World) (bs : List BranchRecord)
    → active_record w.execution ≡ none
    → Dict.values w.execution.branches_by_id ≡ bs
    → (ensure_default_branch w).0 ≢ raised diverged
unfolding ensure_default_branch
unstored-Ends w [] missing empty =
    rw (missing, empty, ensure_default_branch) (initial_branch-Ends w)
unstored-Ends w (b ∷ bs) missing there =
    rw (missing, there, ensure_default_branch) (ok-ne-diverged b)

pub ensure_default_branch-Ends : Ends ensure_default_branch
unfolding ensure_default_branch
ensure_default_branch-Ends w = elim (Option-cases (active_record w.execution)) [
  | inl missing ↦ unstored-Ends w (Dict.values w.execution.branches_by_id) missing refl
  | inr (b, there) ↦ rw (there, ensure_default_branch) (ok-ne-diverged b)
]

owned-ne-diverged :
    (e : WorkflowExecution) (k : Uuid) (ids : List Uuid) → owned e k ids ≢ raised diverged
unfolding owned get_step
owned-ne-diverged e k [] = ok-ne-diverged _
owned-ne-diverged e k (j ∷ js) = ground (arith, owned-ne-diverged e k js)

node_step_ids-ne-diverged :
    (e : WorkflowExecution) (n : NodeExecution) → node_step_ids e n ≢ raised diverged
unfolding node_step_ids
node_step_ids-ne-diverged e n = elim (Option-cases n.branch_id) [
  | inl none_there ↦ rw (none_there, node_step_ids) (ok-ne-diverged _)
  | inr (b, there) ↦
      rw (there, node_step_ids)
        (go (compute_branch_step_ids b e) (compute_branch_step_ids-ne-diverged b e))
]
  where
    go :
        (r : Outcome (List Uuid))
        → r ≢ raised diverged
        → (elim r as (λ _. Outcome (List Uuid)) [ raised x ↦ raised x | ok ids ↦ owned e n.id ids ])
          ≢ raised diverged
    go (ok ids) h = owned-ne-diverged e n.id ids
    go (raised x) h = λ p. h (ground arith)

refresh_nodes-ne-diverged :
    (e : WorkflowExecution) (d : Dict.Dict NodeExecution) → (refresh_nodes e d).0 ≢ raised diverged
unfolding refresh_nodes
refresh_nodes-ne-diverged e [] = ok-ne-diverged _
refresh_nodes-ne-diverged e ((k, n) ∷ d) =
    ground (arith, node_step_ids-ne-diverged e n, refresh_nodes-ne-diverged e d)

refresh_all_nodes-Ends : Ends refresh_all_nodes
unfolding refresh_all_nodes
refresh_all_nodes-Ends w = refresh_nodes-ne-diverged w.execution w.execution.node_executions

pub refresh_step_ids-Ends : Ends refresh_step_ids
unfolding refresh_step_ids
refresh_step_ids-Ends w =
    bind-ne diverged ensure_default_branch _ w (ensure_default_branch-Ends w) (λ b w1.
      bind-ne diverged (read (compute_branch_step_ids b.id)) _ w1
        (compute_branch_step_ids-ne-diverged b.id w1.execution)
        (λ ids w2. refresh_all_nodes-Ends _))
