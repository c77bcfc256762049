-- ===== src/History/Walk/Grow.antt =====
-- The paths of a workflow to which one step was added.
use codeng.Prelude.{
  ℕ, zero, suc, ◌≡◌, ◌≢◌, arith, true, false, Option, none, some, List, [], ◌∷◌, ◌++◌, has,
  has-append, inl, inr, Bool-cases, Option-cases, ◌∙◌, ◌≤◌,
}
use codeng.Prelude.Dict
use codeng.Workflow.Data.{Uuid, WorkflowExecution, Step}
use codeng.Workflow.Action.{ok}
use codeng.History.Walk.Rounds.{branch_path-met, branch_path-lost, branch_path-next}
use codeng.History.Walk.{branch_path}

-- `e'` has the steps of `e`, with their parents, and perhaps more
pub record Keeps (e e' : WorkflowExecution) : Type 0 where
  pub keeps :
      (k : Uuid) (s : Step)
      → Dict.get k e.steps_by_id ≡ some s
      → (t : Step) × (Dict.get k e'.steps_by_id ≡ some t) × (t.parent_step_id ≡ s.parent_step_id)

has_append_one :
    (k x : Uuid) (path : List Uuid) → has k path ≡ false → k ≢ x → has k (path ++ x ∷ []) ≡ false
has_append_one k x path h d = ground (arith, has-append k path (x ∷ []))

has_append_left :
    (k x : Uuid) (path : List Uuid) → has k path ≡ true → has k (path ++ x ∷ []) ≡ true
has_append_left k x path h = ground (arith, has-append k path (x ∷ []))

module _ {e e' : WorkflowExecution} (kept : Keeps e e') where
  -- A path of `e` is one of `e'`, with as many rounds or more.
  pub branch_path_same :
      (n m : ℕ) (cur : Option Uuid) (path ids : List Uuid)
      → n ≤ m
      → branch_path n e cur path ≡ ok ids
      → branch_path m e' cur path ≡ ok ids
  branch_path_same n m none path ids le h = unfold branch_path in cc
  branch_path_same zero m (some k) path ids le h = unfold branch_path in cc
  branch_path_same (suc n) zero (some k) path ids le h = absurd (omega arith)
  branch_path_same (suc n) (suc m) (some k) path ids le h = elim (Bool-cases (has k path)) [
    | inl met ↦ cc (h, branch_path-met n e k path met, branch_path-met m e' k path met)
    | inr new ↦ elim (Option-cases (Dict.get k e.steps_by_id)) [
      | inl missing ↦ cc (h, branch_path-lost n e k path new missing)
      | inr (s, there) ↦
          let (t, there', same) = kept.keeps k s there in
          branch_path-next m e' k path t new there'
          ∙ rw same (
              branch_path_same n m s.parent_step_id (k ∷ path) ids (omega arith)
                (rw (branch_path-next n e k path s new there) at h))
    ]
  ]

  -- The same behind a step `x` that `e` does not have.
  pub branch_path_grows :
      (x : Uuid) (n m : ℕ) (cur : Option Uuid) (path ids : List Uuid)
      → Dict.get x e.steps_by_id ≡ none
      → n ≤ m
      → branch_path n e cur path ≡ ok ids
      → branch_path m e' cur (path ++ x ∷ []) ≡ ok (ids ++ x ∷ [])
  branch_path_grows x n m none path ids fresh le h = unfold branch_path in cc
  branch_path_grows x zero m (some k) path ids fresh le h = unfold branch_path in cc
  branch_path_grows x (suc n) zero (some k) path ids fresh le h = absurd (omega arith)
  branch_path_grows x (suc n) (suc m) (some k) path ids fresh le h =
      elim (Bool-cases (has k path)) [
        | inl met ↦ cc (
          h,
          branch_path-met n e k path met,
          branch_path-met m e' k (path ++ x ∷ []) (has_append_left k x path met),
        )
        | inr new ↦ elim (Option-cases (Dict.get k e.steps_by_id)) [
          | inl missing ↦ cc (h, branch_path-lost n e k path new missing)
          | inr (s, there) ↦
              let (t, there', same) = kept.keeps k s there in
              branch_path-next m e' k (path ++ x ∷ []) t
                (has_append_one k x path new (λ p. cc (fresh, there, p))) there'
              ∙ rw same (
                  branch_path_grows x n m s.parent_step_id (k ∷ path) ids fresh (omega arith)
                    (rw (branch_path-next n e k path s new there) at h))
        ]
      ]
