-- ===== src/History/Walk/Chain.antt =====
-- What a computed path is: the chain of parents from a root down to the head of the branch.
use codeng.Prelude.{
  ℕ, zero, suc, ◌≡◌, refl, true, false, Option, none, some, List, [], ◌∷◌, has, inl, inr,
  Bool-cases, Option-cases, last?, subst,
}
use codeng.Prelude.Dict
use codeng.Workflow.Data.{Uuid, WorkflowExecution, Step, BranchRecord}
use codeng.Workflow.Action.{ok}
use codeng.History.Walk.Rounds.{
  branch_path-met, branch_path-lost, branch_path-next, compute_branch_step_ids-there,
}
use codeng.History.Walk.{branch_path, rounds, compute_branch_step_ids}

-- every id is a known step whose parent is the id before it
abbrev pub Linked : WorkflowExecution → Option Uuid → List Uuid → Type 0
Linked e before [] = Unit
Linked e before (k ∷ ks) =
    (s : Step) × (Dict.get k e.steps_by_id ≡ some s)
    × (s.parent_step_id ≡ before)
    × Linked e (some k) ks

abbrev pub Distinct : List Uuid → Type 0
Distinct [] = Unit
Distinct (k ∷ ks) = (has k ks ≡ false) × Distinct ks

-- the parent of the first step: none, or a step of the path where the parents form a cycle
abbrev pub Stops : Option Uuid → List Uuid → Type 0
Stops none ids = Unit
Stops (some k) ids = has k ids ≡ true

-- the last id is the head; there is none for an empty branch
abbrev pub EndsAt : Option Uuid → List Uuid → Type 0
EndsAt head ids = last? ids ≡ head

pub record IsHistory (e : WorkflowExecution) (head : Option Uuid) (ids : List Uuid) : Type 0 where
  pub before : Option Uuid
  pub stops : Stops before ids
  pub linked : Linked e before ids
  pub distinct : Distinct ids
  pub ends : EndsAt head ids

-- the part of the path that the loop has, before it looks at `cur`
abbrev Reached : Option Uuid → Option Uuid → List Uuid → Type 0
Reached head cur [] = head ≡ cur
Reached head cur (k ∷ ks) = EndsAt head (k ∷ ks)

Reached-cons :
    (head : Option Uuid) (k : Uuid) (path : List Uuid) (next : Option Uuid)
    → Reached head (some k) path
    → Reached head next (k ∷ path)
Reached-cons head k [] next h = cc
Reached-cons head k (j ∷ js) next h = h

Reached-EndsAt : (head : Option Uuid) (path : List Uuid) → Reached head none path → EndsAt head path
Reached-EndsAt head [] h = cc
Reached-EndsAt head (k ∷ ks) h = h

Reached-met :
    (head : Option Uuid) (k : Uuid) (path : List Uuid)
    → has k path ≡ true
    → Reached head (some k) path
    → EndsAt head path
Reached-met head k [] m h = cc
Reached-met head k (j ∷ js) m h = h

finished :
    (e : WorkflowExecution) (head : Option Uuid) (path ids : List Uuid) (before : Option Uuid)
    → path ≡ ids
    → Stops before path
    → Linked e before path
    → Distinct path
    → EndsAt head path
    → IsHistory e head ids
finished e head path ids before same stops l d r =
    subst (IsHistory e head) same
      (record { before = before; stops = stops; linked = l; distinct = d; ends = r })

branch_path-IsHistory :
    (n : ℕ) (e : WorkflowExecution) (head cur : Option Uuid) (path ids : List Uuid)
    → Linked e cur path
    → Distinct path
    → Reached head cur path
    → branch_path n e cur path ≡ ok ids
    → IsHistory e head ids
branch_path-IsHistory n e head none path ids l d r h =
    finished e head path ids none (unfold branch_path in cc) tt l d (Reached-EndsAt head path r)
branch_path-IsHistory zero e head (some k) path ids l d r h = unfold branch_path in cc
branch_path-IsHistory (suc n) e head (some k) path ids l d r h = elim (Bool-cases (has k path)) [
  | inl met ↦
      finished e head path ids (some k) (cc (h, branch_path-met n e k path met)) met l d
        (Reached-met head k path met r)
  | inr new ↦ elim (Option-cases (Dict.get k e.steps_by_id)) [
    | inl missing ↦ cc (h, branch_path-lost n e k path new missing)
    | inr (s, there) ↦
        branch_path-IsHistory n e head s.parent_step_id (k ∷ path) ids (s, there, refl, l) (new, d)
          (Reached-cons head k path s.parent_step_id r)
          (rw (branch_path-next n e k path s new there) at h)
  ]
]

-- Where the ids of a stored branch can be computed, the last one is its head (there is none for an
-- empty branch), each is a stored step and the parent of the next, none occurs twice, and the
-- first one has no parent or, in a cycle, one of these ids.
pub compute_branch_step_ids-IsHistory :
    (k : Uuid) (e : WorkflowExecution) (b : BranchRecord) (ids : List Uuid)
    → Dict.get k e.branches_by_id ≡ some b
    → compute_branch_step_ids k e ≡ ok ids
    → IsHistory e b.head_step_id ids
compute_branch_step_ids-IsHistory k e b ids there h =
    branch_path-IsHistory (rounds e) e b.head_step_id b.head_step_id [] ids tt tt refl
      (rw (compute_branch_step_ids-there k e b there) at h)
