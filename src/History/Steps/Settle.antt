-- ===== src/History/Steps/Settle.antt =====
-- `settle_head` and `settle_base`: the head changes only where the step stands outside the path, and
-- the base is not part of the view.
use codeng.Prelude.{
  ◌≡◌, refl, sym, arith, false, some, inl, inr, Bool-cases, Option-cases, option_eq, option_eq_iff,
  if◌then◌else◌, subst, ◌||◌, get_or, ==_iff, ◌==◌,
}
use codeng.Prelude.Dict
use codeng.Prelude.Dict.{get-adjust}
use codeng.Workflow.Data.{Uuid, WorkflowExecution, Step, BranchRecord}
use codeng.Workflow.Action.{ok, World, pure, read, modify, bind-ok}
use codeng.Workflow.Access.{get_branch}
use codeng.History.Walk.{get_path_from_head}
use codeng.History.Walk.Shows.{Shows, SameBranch, Shows-kept}
use codeng.History.Steps.{
  settle_head, settle_base, on_branch, set_head, set_base, root_base, needs_base,
}
use native.Mathlib.Nat.{le_refl}

-- only branches differ, and none of them in its id or its head
pub record Settled (e e' : WorkflowExecution) : Type 0 where
  pub rest : e' ≡ record e { branches_by_id = e'.branches_by_id }
  pub branches : (k : Uuid) → SameBranch k e e'

pub Settled-refl : (e : WorkflowExecution) → Settled e e
Settled-refl e = record { rest = refl; branches = λ k b h. (b, h, refl, refl) }

pub Shows-Settled : {e e' : WorkflowExecution} → Settled e e' → Shows e → Shows e'
Shows-Settled {e} {e'} settled shows = subst Shows (sym settled.rest) (
    Shows-kept {e = e} {e' = record e { branches_by_id = e'.branches_by_id }}
      (record { keeps = λ j s p. (s, p, refl) }) shows (settled.branches shows.active) (le_refl _)
      refl refl)

on_branch-Settled :
    (k : Uuid) (f : BranchRecord → BranchRecord) (e : WorkflowExecution)
    → ((b : BranchRecord)
        → Dict.get k e.branches_by_id ≡ some b
        → ((f b).head_step_id ≡ b.head_step_id) × ((f b).id ≡ b.id))
    → Settled e (on_branch k f e)
on_branch-Settled k f e same = record {
  rest = refl;
  branches = λ j b h. elim (Bool-cases (k == j)) [
    | inl hit ↦ (
      f b,
      rw (get-adjust k f j e.branches_by_id, hit, h),
      (same b (rw (← (==_iff k j).0 hit) at h)).0,
      (same b (rw (← (==_iff k j).0 hit) at h)).1,
    )
    | inr miss ↦ (b, rw (get-adjust k f j e.branches_by_id, miss) h, refl, refl)
  ];
}

Settled-to :
    (w w' : World) (e : WorkflowExecution)
    → w' ≡ record w { execution = e }
    → Settled w.execution e
    → Settled w.execution w'.execution
Settled-to w w' e eq settled =
    subst (λ (v : World). Settled w.execution v.execution) (sym eq) settled

head_written :
    (k : Uuid) (s : Step) (r : BranchRecord) (w w' : World) {u : Unit {0}}
    → Dict.get k w.execution.branches_by_id ≡ some r
    → (if false || option_eq r.head_step_id (some s.id)
          then modify (on_branch k (set_head s.id))
          else pure tt)
        w
      ≡ (ok u, w')
    → Settled w.execution w'.execution
head_written k s r w w' there h = elim (Bool-cases (option_eq r.head_step_id (some s.id))) [
  | inl hit ↦ Settled-to w w' (on_branch k (set_head s.id) w.execution) (ground arith) (
      on_branch-Settled k (set_head s.id) w.execution
        (λ b p. (cc (there, p, (option_eq_iff r.head_step_id (some s.id)).0 hit), refl)))
  | inr miss ↦ Settled-to w w' w.execution (ground arith) (Settled-refl w.execution)
]

-- The head is written again only where it is the step already.
pub settle_head-Settled :
    (k : Uuid) (s : Step) (w w' : World) {u : Unit {0}}
    → settle_head false k s w ≡ (ok u, w')
    → Settled w.execution w'.execution
unfolding settle_head get_branch
settle_head-Settled k s w w' h = elim (Option-cases (Dict.get k w.execution.branches_by_id)) [
  | inl missing ↦ absurd (ground arith)
  | inr (r, there) ↦ head_written k s r w w' there (ground arith)
]

base_written :
    (k : Uuid) (s : Step) (w w' : World) {u : Unit {0}}
    → root_base k s w ≡ (ok u, w')
    → Settled w.execution w'.execution
unfolding root_base
base_written k s w w' h =
    let (path, w1, p, q) = bind-ok (read (get_path_from_head (some s.id))) _ w h in
    let e : WorkflowExecution = on_branch k (set_base (get_or path 0 s.id)) w.execution in
    Settled-to w w' e (cc (p, q))
      (on_branch-Settled k (set_base (get_or path 0 s.id)) w.execution (λ b p. (refl, refl)))

pub settle_base-Settled :
    (k : Uuid) (s : Step) (w w' : World) {u : Unit {0}}
    → settle_base k s w ≡ (ok u, w')
    → Settled w.execution w'.execution
unfolding settle_base get_branch
settle_base-Settled k s w w' h = elim (Option-cases (Dict.get k w.execution.branches_by_id)) [
  | inl missing ↦ absurd (ground arith)
  | inr (r, there) ↦ elim (Bool-cases (needs_base r s)) [
    | inl needed ↦ base_written k s w w' (ground arith)
    | inr settled ↦ Settled-to w w' w.execution (ground arith) (Settled-refl w.execution)
  ]
]
