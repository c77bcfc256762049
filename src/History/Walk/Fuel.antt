-- ===== src/History/Walk/Fuel.antt =====
-- The walks to the root end: every round but the last meets a step that was not met before.
use codeng.Prelude.{
  ℕ, zero, suc, ◌+◌, ◌≤◌, ◌<◌, ◌≡◌, ◌≢◌, refl, arith, false, Option, none, some, List, [], ◌∷◌, has,
  if◌then◌else◌, length, inl, inr, Bool-cases, Option-cases,
}
use codeng.Prelude.Dict
use codeng.Prelude.Dict.{Dict}
use codeng.Workflow.Data.{Uuid, WorkflowExecution}
use codeng.Workflow.Action.{ok, raised, diverged}
use codeng.History.Walk.Rounds.{
  branch_path-met, branch_path-lost, branch_path-next, head_path-met, head_path-lost,
  head_path-next, compute_branch_step_ids-there, compute_branch_step_ids-missing,
}
use codeng.History.Walk.{
  branch_path, head_path, rounds, compute_branch_step_ids, get_path_from_head,
}

-- how many keys were not met
unseen {ℓ} : {V : Type ℓ} → Dict V → List Uuid → ℕ
unseen [] path = 0
unseen ((k, s) ∷ d) path = (if has k path then 0 else 1) + unseen d path

module _ {ℓ} {V : Type ℓ} where
  unseen-le-length : (d : Dict V) (path : List Uuid) → unseen d path ≤ length d
  unfolding unseen
  unseen-le-length [] path = omega arith
  unseen-le-length ((k, s) ∷ d) path = ground (arith, unseen-le-length d path)

  unseen-cons-le : (d : Dict V) (k : Uuid) (path : List Uuid) → unseen d (k ∷ path) ≤ unseen d path
  unfolding unseen
  unseen-cons-le [] k path = omega arith
  unseen-cons-le ((j, s) ∷ d) k path = ground (arith, unseen-cons-le d k path)

  unseen-cons-lt :
      (d : Dict V) (k : Uuid) (v : V) (path : List Uuid)
      → Dict.get k d ≡ some v
      → has k path ≡ false
      → unseen d (k ∷ path) < unseen d path
  unfolding unseen Dict.get
  unseen-cons-lt [] k v path h m = cc
  unseen-cons-lt ((j, s) ∷ d) k v path h m =
      ground (arith, unseen-cons-lt d k v path, unseen-cons-le d k path)

branch_path-ne-diverged :
    (n : ℕ) (e : WorkflowExecution) (cur : Option Uuid) (path : List Uuid)
    → unseen e.steps_by_id path < n
    → branch_path n e cur path ≢ raised diverged
branch_path-ne-diverged n e none path h = unfold branch_path in cc
branch_path-ne-diverged zero e (some k) path h = absurd (omega arith)
branch_path-ne-diverged (suc n) e (some k) path h = elim (Bool-cases (has k path)) [
  | inl met ↦ rw (branch_path-met n e k path met) cc
  | inr new ↦ elim (Option-cases (Dict.get k e.steps_by_id)) [
    | inl missing ↦ rw (branch_path-lost n e k path new missing) cc
    | inr (s, there) ↦ rw (branch_path-next n e k path s new there) (
        branch_path-ne-diverged n e s.parent_step_id (k ∷ path)
          (omega (arith, unseen-cons-lt e.steps_by_id k s path there new)))
  ]
]

head_path_returns :
    (n : ℕ) (e : WorkflowExecution) (cur : Option Uuid) (path : List Uuid)
    → unseen e.steps_by_id path < n
    → (ids : List Uuid) × (head_path n e cur path ≡ ok ids)
head_path_returns n e none path h = (path, unfold head_path in refl)
head_path_returns zero e (some k) path h = absurd (omega arith)
head_path_returns (suc n) e (some k) path h = elim (Bool-cases (has k path)) [
  | inl met ↦ (path, head_path-met n e k path met)
  | inr new ↦ elim (Option-cases (Dict.get k e.steps_by_id)) [
    | inl missing ↦ (k ∷ path, head_path-lost n e k path new missing)
    | inr (s, there) ↦ rw (head_path-next n e k path s new there) (
        head_path_returns n e s.parent_step_id (k ∷ path)
          (omega (arith, unseen-cons-lt e.steps_by_id k s path there new)))
  ]
]

-- The walk over the path of a branch never runs for ever, whatever the parents of the steps,
-- cycles included: it ends within its rounds.
pub compute_branch_step_ids-ne-diverged :
    (branch_id : Uuid) (e : WorkflowExecution)
    → compute_branch_step_ids branch_id e ≢ raised diverged
compute_branch_step_ids-ne-diverged branch_id e =
    elim (Option-cases (Dict.get branch_id e.branches_by_id)) [
      | inl missing ↦ rw (compute_branch_step_ids-missing branch_id e missing) cc
      | inr (b, there) ↦ rw (compute_branch_step_ids-there branch_id e b there) (
          branch_path-ne-diverged (rounds e) e b.head_step_id []
            (omega (arith, unseen-le-length e.steps_by_id [])))
    ]

-- The path to a step is always computed: an unknown id ends it, and a cycle does too.
pub get_path_from_head_returns :
    (step_id : Option Uuid) (e : WorkflowExecution)
    → (ids : List Uuid) × (get_path_from_head step_id e ≡ ok ids)
unfolding get_path_from_head
get_path_from_head_returns step_id e =
    head_path_returns (rounds e) e step_id [] (omega (arith, unseen-le-length e.steps_by_id []))
