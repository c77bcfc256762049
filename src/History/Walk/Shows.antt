-- ===== src/History/Walk/Shows.antt =====
-- A workflow that shows its active branch: `step_ids` are what would be computed for it.
use codeng.Prelude.{
  suc, ◌≡◌, ◌≤◌, refl, sym, ap, arith, none, some, List, [], ◌∷◌, ◌++◌, length, inl, inr,
  Option-cases, ◌∙◌,
}
use codeng.Prelude.Dict
use codeng.Workflow.Data.{Uuid, WorkflowExecution, Step, BranchRecord}
use codeng.Workflow.Action.{ok}
use codeng.History.Walk.Rounds.{
  branch_path-next, compute_branch_step_ids-there, compute_branch_step_ids-missing,
}
use codeng.History.Walk.Grow.{Keeps, branch_path_same, branch_path_grows}
use codeng.History.Walk.{branch_path, rounds, compute_branch_step_ids}

pub record Shows (e : WorkflowExecution) : Type 0 where
  pub active : Uuid
  pub is_active : e.active_branch_id ≡ some active
  pub computed : compute_branch_step_ids active e ≡ ok e.step_ids
  pub keyed : (b : BranchRecord) → Dict.get active e.branches_by_id ≡ some b → b.id ≡ active

-- A branch whose ids can be computed is there.
pub branch_of :
    (k : Uuid) (e : WorkflowExecution) (ids : List Uuid)
    → compute_branch_step_ids k e ≡ ok ids
    → (b : BranchRecord) × (Dict.get k e.branches_by_id ≡ some b)
      × (branch_path (rounds e) e b.head_step_id [] ≡ ok ids)
branch_of k e ids h = elim (Option-cases (Dict.get k e.branches_by_id)) [
  | inl missing ↦ cc (h, compute_branch_step_ids-missing k e missing)
  | inr (b, there) ↦ (b, there, rw (compute_branch_step_ids-there k e b there) at h)
]

-- branch `k` is there still, with the same id and the same head
abbrev pub SameBranch : Uuid → WorkflowExecution → WorkflowExecution → Type 0
SameBranch k e e' =
    (b : BranchRecord)
    → Dict.get k e.branches_by_id ≡ some b
    → (b' : BranchRecord) × (Dict.get k e'.branches_by_id ≡ some b')
      × (b'.head_step_id ≡ b.head_step_id)
      × (b'.id ≡ b.id)

module _ {e e' : WorkflowExecution} (kept : Keeps e e') where
  pub compute_kept :
      (k : Uuid) (ids : List Uuid)
      → SameBranch k e e'
      → length e.steps_by_id ≤ length e'.steps_by_id
      → compute_branch_step_ids k e ≡ ok ids
      → compute_branch_step_ids k e' ≡ ok ids
  compute_kept k ids heads le h =
      let (b, there, path) = branch_of k e ids h in
      let (b', there', same, _) = heads b there in
      compute_branch_step_ids-there k e' b' there'
      ∙ rw same
          (branch_path_same kept (rounds e) (rounds e') b.head_step_id [] ids (omega arith) path)

  -- A step `s` that follows the head of the branch and is its new head is the last of the path.
  pub compute_grown :
      (k : Uuid) (ids : List Uuid) (b b' : BranchRecord) (s : Step)
      → Dict.get k e.branches_by_id ≡ some b
      → Dict.get k e'.branches_by_id ≡ some b'
      → b'.head_step_id ≡ some s.id
      → b.head_step_id ≡ s.parent_step_id
      → Dict.get s.id e.steps_by_id ≡ none
      → Dict.get s.id e'.steps_by_id ≡ some s
      → suc (length e.steps_by_id) ≤ length e'.steps_by_id
      → compute_branch_step_ids k e ≡ ok ids
      → compute_branch_step_ids k e' ≡ ok (ids ++ s.id ∷ [])
  compute_grown k ids b b' s there there' head parent fresh stored le h =
      let path : branch_path (rounds e) e b.head_step_id [] ≡ ok ids =
        rw (compute_branch_step_ids-there k e b there) at h in
      compute_branch_step_ids-there k e' b' there'
      ∙ rw head (
          branch_path-next (length e'.steps_by_id) e' s.id [] s refl stored
          ∙ branch_path_grows kept s.id (rounds e) (length e'.steps_by_id) s.parent_step_id [] ids
              fresh le (rw parent at path))

  -- What keeps the steps, the active branch and the visible ids keeps the view.
  pub Shows-kept :
      (shows : Shows e)
      → SameBranch shows.active e e'
      → length e.steps_by_id ≤ length e'.steps_by_id
      → e'.active_branch_id ≡ e.active_branch_id
      → e'.step_ids ≡ e.step_ids
      → Shows e'
  Shows-kept shows heads le same visible =
      let (b, there, path) = branch_of shows.active e e.step_ids shows.computed in
      let (b', there', _, id) = heads b there in
      record {
        active = shows.active;
        is_active = same ∙ shows.is_active;
        computed =
            compute_kept shows.active e.step_ids heads le shows.computed ∙ ap ok (sym visible);
        keyed = λ b2 there2. cc (there', there2, id, shows.keyed b there);
      }
