-- ===== src/History/Branches/Refresh.antt =====
-- `_ensure_default_branch` and `_refresh_step_ids` where the active branch is there.
use codeng.Prelude.{◌≡◌, refl, arith, some, List, ◌∙◌, sym, ap, subst}
use codeng.Prelude.Dict
use codeng.Prelude.Dict.{Dict}
use codeng.Workflow.Data.{Uuid, WorkflowExecution, BranchRecord, NodeExecution}
use codeng.Workflow.Action.{Outcome, ok, World, read, modify, ◌>>◌, bind-ok}
use codeng.History.Walk.{compute_branch_step_ids}
use codeng.History.Walk.Shows.{Shows, compute_kept}
use codeng.History.Branches.{
  ensure_default_branch, refresh_step_ids, refresh_all_nodes, refresh_nodes,
}
use native.Mathlib.Nat.{le_refl}

pub ensure_default_branch_there :
    (w : World) (k : Uuid) (b : BranchRecord)
    → w.execution.active_branch_id ≡ some k
    → Dict.get k w.execution.branches_by_id ≡ some b
    → ensure_default_branch w ≡ (ok b, w)
unfolding ensure_default_branch
ensure_default_branch_there w k b active there = ground arith

abbrev refreshed : List Uuid → Dict NodeExecution → WorkflowExecution → WorkflowExecution
refreshed ids nodes e = record e { step_ids = ids; node_executions = nodes }

abbrev refreshed_world : List Uuid → Dict NodeExecution → World → World
refreshed_world ids nodes w = record w { execution = refreshed ids nodes w.execution }

refreshed-Shows :
    (e : WorkflowExecution) (ids : List Uuid) (nodes : Dict NodeExecution) (k : Uuid)
    (b : BranchRecord)
    → e.active_branch_id ≡ some k
    → Dict.get k e.branches_by_id ≡ some b
    → b.id ≡ k
    → compute_branch_step_ids k e ≡ ok ids
    → Shows (refreshed ids nodes e)
refreshed-Shows e ids nodes k b active there id h = record {
  active = k;
  is_active = active;
  computed =
      compute_kept {e = e} {e' = refreshed ids nodes e} (record { keeps = λ j s p. (s, p, refl) }) k
        ids (λ b1 p. (b1, p, refl, refl)) (le_refl _) h;
  keyed = λ b1 p. cc (there, p, id);
}

-- the rest of a refresh, from the branch that it shows
refresh_rest :
    (w w' : World) (ids : List Uuid) {u : Unit {0}}
    → (modify (λ e. record e { step_ids = ids }) >> refresh_all_nodes) w ≡ (ok u, w')
    → (nodes : Dict NodeExecution) × (w' ≡ record w { execution = refreshed ids nodes w.execution })
unfolding refresh_all_nodes
refresh_rest w w' ids h =
    let e : WorkflowExecution = record w.execution { step_ids = ids } in
    ((refresh_nodes e e.node_executions).1, sym (ap (λ (r : Outcome (Unit {0}) × World). r.1) h))

-- what a refresh that returns does
refresh_step_ids_lem :
    (w w' : World) (k : Uuid) (b : BranchRecord) {u : Unit {0}}
    → w.execution.active_branch_id ≡ some k
    → Dict.get k w.execution.branches_by_id ≡ some b
    → b.id ≡ k
    → refresh_step_ids w ≡ (ok u, w')
    → (ids : List Uuid) × (nodes : Dict NodeExecution) × (w' ≡ refreshed_world ids nodes w)
      × (compute_branch_step_ids k w.execution ≡ ok ids)
unfolding refresh_step_ids
refresh_step_ids_lem w w' k b active there id h =
    let (b1, w1, p, q) = bind-ok ensure_default_branch _ w h in
    let (ids, w2, p2, q2) = bind-ok (read (compute_branch_step_ids b1.id)) _ w1 q in
    let (nodes, eq) = refresh_rest w2 w' ids q2 in
    let (branch, same) = at_start b1 w1 p in
    let same2 : w2 ≡ w = cc (p2, same) in
    (ids, nodes, eq ∙ ap (refreshed_world ids nodes) same2, cc (p2, branch, same, id))
  where
    at_start :
        (b1 : BranchRecord) (w1 : World)
        → ensure_default_branch w ≡ (ok b1, w1)
        → (b1 ≡ b) × (w1 ≡ w)
    at_start b1 w1 p = ground (arith, ensure_default_branch_there w k b active there)

-- Where the active branch is stored, under its own id, a refresh that returns leaves the visible ids
-- as they are computed for it.
pub refresh_step_ids-Shows :
    (w w' : World) (k : Uuid) (b : BranchRecord) {u : Unit {0}}
    → w.execution.active_branch_id ≡ some k
    → Dict.get k w.execution.branches_by_id ≡ some b
    → b.id ≡ k
    → refresh_step_ids w ≡ (ok u, w')
    → Shows w'.execution
refresh_step_ids-Shows w w' k b active there id h =
    let (ids, nodes, eq, computed) = refresh_step_ids_lem w w' k b active there id h in
    subst (λ (v : World). Shows v.execution) (sym eq)
      (refreshed-Shows w.execution ids nodes k b active there id computed)

-- Such a refresh leaves the active branch.
pub refresh_step_ids_active :
    (w w' : World) (k : Uuid) (b : BranchRecord) {u : Unit {0}}
    → w.execution.active_branch_id ≡ some k
    → Dict.get k w.execution.branches_by_id ≡ some b
    → b.id ≡ k
    → refresh_step_ids w ≡ (ok u, w')
    → w'.execution.active_branch_id ≡ some k
refresh_step_ids_active w w' k b active there id h =
    let (ids, nodes, eq, _) = refresh_step_ids_lem w w' k b active there id h in
    ap (λ (v : World). v.execution.active_branch_id) eq ∙ active
