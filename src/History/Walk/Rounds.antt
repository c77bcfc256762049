-- ===== src/History/Walk/Rounds.antt =====
-- One round of each walk to the root.
use codeng.Prelude.{ℕ, suc, ◌≡◌, arith, true, false, none, some, List, [], ◌∷◌, has}
use codeng.Prelude.Dict
use codeng.Workflow.Data.{Uuid, WorkflowExecution, Step, BranchRecord}
use codeng.Workflow.Action.{ok, raised, key_error}
use codeng.Workflow.Access.{get_step, get_branch}
use codeng.History.Walk.{branch_path, head_path, rounds, compute_branch_step_ids}

module _ (n : ℕ) (e : WorkflowExecution) (k : Uuid) (path : List Uuid) where
  pub branch_path-met : has k path ≡ true → branch_path (suc n) e (some k) path ≡ ok path
  unfolding branch_path
  branch_path-met h = ground arith

  pub branch_path-lost :
      has k path ≡ false
      → Dict.get k e.steps_by_id ≡ none
      → branch_path (suc n) e (some k) path ≡ raised key_error
  unfolding branch_path get_step
  branch_path-lost h m = ground arith

  pub branch_path-next :
      (s : Step)
      → has k path ≡ false
      → Dict.get k e.steps_by_id ≡ some s
      → branch_path (suc n) e (some k) path ≡ branch_path n e s.parent_step_id (k ∷ path)
  unfolding branch_path get_step
  branch_path-next s h m = ground arith

  pub head_path-met : has k path ≡ true → head_path (suc n) e (some k) path ≡ ok path
  unfolding head_path
  head_path-met h = ground arith

  pub head_path-lost :
      has k path ≡ false
      → Dict.get k e.steps_by_id ≡ none
      → head_path (suc n) e (some k) path ≡ ok (k ∷ path)
  unfolding head_path
  head_path-lost h m = ground arith

  pub head_path-next :
      (s : Step)
      → has k path ≡ false
      → Dict.get k e.steps_by_id ≡ some s
      → head_path (suc n) e (some k) path ≡ head_path n e s.parent_step_id (k ∷ path)
  unfolding head_path
  head_path-next s h m = ground arith

module _ (k : Uuid) (e : WorkflowExecution) where
  pub compute_branch_step_ids-there :
      (b : BranchRecord)
      → Dict.get k e.branches_by_id ≡ some b
      → compute_branch_step_ids k e ≡ branch_path (rounds e) e b.head_step_id []
  unfolding compute_branch_step_ids get_branch
  compute_branch_step_ids-there b h = ground arith

  pub compute_branch_step_ids-missing :
      Dict.get k e.branches_by_id ≡ none → compute_branch_step_ids k e ≡ raised key_error
  unfolding compute_branch_step_ids get_branch
  compute_branch_step_ids-missing h = ground arith
