-- ===== src/History/Branches/Switch.antt =====
-- `switch_branch` and `compute_removed_step_ids`.
use codeng.Prelude.{
  ◌≡◌, refl, sym, ap, arith, not, ◌&&◌, some, List, [], ◌∷◌, has, ◌∙◌, subst, ==_iff,
}
use codeng.Prelude.Dict
use codeng.Workflow.Data.{Uuid, Step, BranchRecord}
use codeng.Workflow.Action.{Outcome, ok, raised, World, read, bind-ok}
use codeng.Workflow.Access.{get_step, get_branch, gather}
use codeng.History.Results.{HistoryMutationResult, HistoryBranchSummary}
use codeng.History.Walk.{compute_removed_step_ids}
use codeng.History.Walk.Shows.{Shows, branch_of}
use codeng.History.Branches.{
  activate, refresh_step_ids, list_branch_summaries, report_switch, switch_branch,
  ensure_default_branch,
}
use codeng.History.Branches.Refresh.{
  refresh_step_ids-Shows, refresh_step_ids_active, ensure_default_branch_there,
}

-- What is removed is what was there and is not there any more.
pub has-compute_removed_step_ids :
    (k : Uuid) (before after : List Uuid)
    → has k (compute_removed_step_ids before after) ≡ (has k before && not (has k after))
unfolding compute_removed_step_ids
has-compute_removed_step_ids k [] after = refl
has-compute_removed_step_ids k (j ∷ before) after =
    ground (arith, has-compute_removed_step_ids k before after, ==_iff j k)

-- the result of a switch lists exactly what the view lost and gained
pub record IsSwitch (k : Uuid) (r : HistoryMutationResult) (w w' : World) : Type 0 where
  pub active : w'.execution.active_branch_id ≡ some k
  pub shows : Shows w'.execution
  pub removed :
      (j : Uuid)
      → has j r.removed_step_ids ≡ (has j w.execution.step_ids && not (has j w'.execution.step_ids))
  pub gained :
      (j : Uuid)
      → has j r.upserted_step_ids
        ≡ (has j w'.execution.step_ids && not (has j w.execution.step_ids))

-- A list of the branches leaves a workflow that has its active branch as it is.
list_branch_summaries-same :
    (w w' : World) (l : List HistoryBranchSummary)
    → Shows w.execution
    → list_branch_summaries w ≡ (ok l, w')
    → w' ≡ w
unfolding list_branch_summaries
list_branch_summaries-same w w' l shows h =
    let (b, there, path) = branch_of shows.active w.execution w.execution.step_ids shows.computed in
    let (b1, w1, p, q) = bind-ok ensure_default_branch _ w h in
    let same : w1 ≡ w =
      cc (p, ensure_default_branch_there w shows.active b shows.is_active there) in
    sym (ap (λ (r : Outcome (List HistoryBranchSummary) × World). r.1) q) ∙ same

abbrev ids_of : Outcome HistoryMutationResult → List Uuid × List Uuid
ids_of (ok r) = (r.removed_step_ids, r.upserted_step_ids)
ids_of (raised x) = ([], [])

-- the ids that a report gives, and the workflow that it leaves
report_switch-ids :
    (before : List Uuid) (k : Uuid) (w w' : World) (r : HistoryMutationResult)
    → Shows w.execution
    → report_switch before k w ≡ (ok r, w')
    → (w' ≡ w)
      × (r.removed_step_ids ≡ compute_removed_step_ids before w.execution.step_ids)
      × (r.upserted_step_ids ≡ compute_removed_step_ids w.execution.step_ids before)
unfolding report_switch
report_switch-ids before k w w' r shows h =
    let added = compute_removed_step_ids w.execution.step_ids before in
    let (steps, w1, p, q) = bind-ok (read (λ e. gather (λ j. get_step j e) added)) _ w h in
    let same : w1 ≡ w = sym (ap (λ (x : Outcome (List Step) × World). x.1) p) in
    let (l, w2, p2, q2) = bind-ok list_branch_summaries _ w1 q in
    let same2 : w2 ≡ w1 =
      list_branch_summaries-same w1 w2 l (subst (λ (v : World). Shows v.execution) (sym same) shows)
        p2 in
    (
      sym (ap (λ (x : Outcome HistoryMutationResult × World). x.1) q2) ∙ same2 ∙ same,
      sym (ap (λ (x : Outcome HistoryMutationResult × World). (ids_of x.0).0) q2),
      sym (ap (λ (x : Outcome HistoryMutationResult × World). (ids_of x.0).1) q2),
    )

-- A switch to a branch, stored under its own id, that returns leaves the visible ids as they are
-- computed for the active branch, and the result lists exactly the steps that the view lost and
-- those that it gained.
pub switch_branch-IsSwitch :
    (k : Uuid) (b : BranchRecord) (w w' : World) (r : HistoryMutationResult)
    → Dict.get k w.execution.branches_by_id ≡ some b
    → b.id ≡ k
    → switch_branch k w ≡ (ok r, w')
    → IsSwitch k r w w'
unfolding switch_branch get_branch
switch_branch-IsSwitch k b w w' r there id h =
    let (b1, w1, p, q) = bind-ok (read (get_branch k)) _ w h in
    let (same, at) = read_branch b1 w1 p in
    let active : World = record w1 { execution = activate b1.id w1.execution } in
    let (u, w2, p2, q2) = bind-ok refresh_step_ids _ active q in
    let is_active : active.execution.active_branch_id ≡ some k =
      ap some (ap (λ (x : BranchRecord). x.id) same ∙ id) in
    let stored : Dict.get k active.execution.branches_by_id ≡ some b =
      ap (λ (v : World). Dict.get k v.execution.branches_by_id) at ∙ there in
    let shows : Shows w2.execution = refresh_step_ids-Shows active w2 k b is_active stored id p2 in
    let now_active : w2.execution.active_branch_id ≡ some k =
      refresh_step_ids_active active w2 k b is_active stored id p2 in
    let (kept, removed, gained) = report_switch-ids w.execution.step_ids b1.id w2 w' r shows q2 in
    subst (IsSwitch k r w) (sym kept) (record {
      active = now_active;
      shows = shows;
      removed = λ j. ap (has j) removed ∙ has-compute_removed_step_ids j _ _;
      gained = λ j. ap (has j) gained ∙ has-compute_removed_step_ids j _ _;
    })
  where
    read_branch :
        (b1 : BranchRecord) (w1 : World) → read (get_branch k) w ≡ (ok b1, w1) → (b1 ≡ b) × (w1 ≡ w)
    read_branch b1 w1 p = ground arith
