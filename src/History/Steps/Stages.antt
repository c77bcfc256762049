-- ===== src/History/Steps/Stages.antt =====
-- What each stage of `place_step` does to the workflow when it returns, for a new step.
use codeng.Prelude.{
  ◌≡◌, sym, arith, Bool, true, false, none, some, List, [], ◌∷◌, ◌++◌, inl, inr, ap, Bool-cases,
  Option-cases, ◌∙◌, option_eq, option_eq_iff, if◌then◌else◌,
}
use codeng.Prelude.Dict
use codeng.Prelude.Dict.{Dict}
use codeng.Workflow.Data.{Uuid, WorkflowExecution, Step, BranchRecord}
use codeng.Workflow.Action.{Outcome, ok, World, pure, modify, bind-ok, ◌>>◌}
use codeng.Workflow.Access.{get_step, get_branch, get_node_execution}
use codeng.History.Steps.{
  link, project, append_both, append_visible, append_owned, append_step_projection, on_node,
  on_branch, ensure_owned, add_child, add_owned, advance,
}

-- the workflow after `link`
abbrev pub linked_steps : Step → Dict Step → Dict Step
linked_steps s d = elim s.parent_step_id [ none ↦ d | some p ↦ Dict.adjust p (add_child s.id) d ]

abbrev pub linked : Step → WorkflowExecution → WorkflowExecution
linked s e = record e { steps_by_id = linked_steps s e.steps_by_id }

pub link-ok :
    (s : Step) (w w' : World) {u : Unit {0}}
    → link s w ≡ (ok u, w')
    → w' ≡ record w { execution = linked s w.execution }
unfolding link get_step
link-ok s w w' h = ground arith

-- the workflow after a projection that appended the step
abbrev pub visible_after : Uuid → Step → WorkflowExecution → List Uuid
visible_after b s e =
    if option_eq e.active_branch_id (some b) then e.step_ids ++ s.id ∷ [] else e.step_ids

abbrev pub appended : Uuid → Step → WorkflowExecution → WorkflowExecution
appended b s e = record e {
  step_ids = visible_after b s e;
  node_executions = Dict.adjust s.execution_id (add_owned s.id) e.node_executions;
  branches_by_id = Dict.adjust b (advance s) e.branches_by_id;
}

append_visible-true :
    (b : Uuid) (s : Step) (w w' : World)
    → append_visible b s w ≡ (ok true, w')
    → w' ≡ record w { execution = record w.execution { step_ids = visible_after b s w.execution } }
unfolding append_visible
append_visible-true b s w w' h = ground arith

append_owned-ok :
    (b : Uuid) (s : Step) (w w' : World) (done : Bool)
    → append_owned b s w ≡ (ok done, w')
    → w' ≡ record w {
      execution = on_branch b (advance s) (on_node s.execution_id (add_owned s.id) w.execution);
    }
unfolding append_owned get_node_execution
append_owned-ok b s w w' done h = ground arith

pub head_of_appended :
    (b : Uuid) (s : Step) (w w' : World)
    → append_step_projection b s w ≡ (ok true, w')
    → (r : BranchRecord) × (Dict.get b w.execution.branches_by_id ≡ some r)
      × (r.head_step_id ≡ s.parent_step_id)
unfolding append_step_projection get_branch
head_of_appended b s w w' h = elim (Option-cases (Dict.get b w.execution.branches_by_id)) [
  | inl missing ↦ absurd (ground arith)
  | inr (r, there) ↦ (r, there, (option_eq_iff r.head_step_id s.parent_step_id).0 (ground arith))
]

append_both-true :
    (b : Uuid) (s : Step) (w w' : World)
    → append_both b s w ≡ (ok true, w')
    → w' ≡ record w { execution = appended b s w.execution }
unfolding append_both
append_both-true b s w w' h =
    let (fits, w1, p, q) =
      bind-ok (append_visible b s) (λ fits. if fits then append_owned b s else pure false) w h in
    fitted fits w1 p q
  where
    fitted :
        (fits : Bool) (w1 : World)
        → append_visible b s w ≡ (ok fits, w1)
        → (if fits then append_owned b s else pure false) w1 ≡ (ok true, w')
        → w' ≡ record w { execution = appended b s w.execution }
    fitted true w1 p q = append_owned-ok b s w1 w' true q ∙ rw (append_visible-true b s w w1 p)
    fitted false w1 p q = absurd (ground arith)

pub append_step_projection-true :
    (b : Uuid) (s : Step) (w w' : World)
    → append_step_projection b s w ≡ (ok true, w')
    → w' ≡ record w { execution = appended b s w.execution }
append_step_projection-true b s w w' h =
    append_both-true b s w w' (unfold append_step_projection get_branch in ground arith)

append_both-false :
    (b : Uuid) (s : Step) (w w' : World) → append_both b s w ≡ (ok false, w') → w' ≡ w
unfolding append_both append_visible append_owned get_node_execution
append_both-false b s w w' h = ground arith

append_step_projection-false :
    (b : Uuid) (s : Step) (w w' : World) → append_step_projection b s w ≡ (ok false, w') → w' ≡ w
append_step_projection-false b s w w' h =
    elim (Option-cases (Dict.get b w.execution.branches_by_id)) [
      | inl missing ↦ absurd (unfold append_step_projection get_branch in ground arith)
      | inr (r, there) ↦ elim (Bool-cases (option_eq r.head_step_id s.parent_step_id)) [
        | inl fits ↦
            append_both-false b s w w' (unfold append_step_projection get_branch in ground arith)
        | inr not_head ↦ unfold append_step_projection get_branch in ground arith
      ]
    ]

pub project-true :
    (b : Uuid) (s : Step) (w w' : World)
    → project none b s w ≡ (ok true, w')
    → append_step_projection b s w ≡ (ok true, w')
unfolding project
project-true b s w w' h =
    let (done, w1, p, q) = bind-ok (append_step_projection b s) _ w h in after done w1 p q
  where
    after :
        (done : Bool) (w1 : World)
        → append_step_projection b s w ≡ (ok done, w1)
        → (do
          if done then pure tt else modify (on_node s.execution_id (ensure_owned s.id))
          pure done)
            w1
          ≡ (ok true, w')
        → append_step_projection b s w ≡ (ok true, w')
    after true w1 p q = cc (p, q)
    after false w1 p q = absurd (ground arith)

-- a projection that did not append changes nothing but the list of the node execution
pub project-false :
    (b : Uuid) (s : Step) (w w' : World)
    → project none b s w ≡ (ok false, w')
    → w'.execution ≡ record w.execution {
      node_executions = Dict.adjust s.execution_id (ensure_owned s.id) w.execution.node_executions;
    }
unfolding project
project-false b s w w' h =
    let (done, w1, p, q) = bind-ok (append_step_projection b s) _ w h in after done w1 p q
  where
    after :
        (done : Bool) (w1 : World)
        → append_step_projection b s w ≡ (ok done, w1)
        → (do
          if done then pure tt else modify (on_node s.execution_id (ensure_owned s.id))
          pure done)
            w1
          ≡ (ok false, w')
        → w'.execution ≡ record w.execution {
          node_executions =
              Dict.adjust s.execution_id (ensure_owned s.id) w.execution.node_executions;
        }
    after true w1 p q = absurd (ground arith)
    after false w1 p q =
        let same : w1 ≡ w = append_step_projection-false b s w w1 p in
        ap (λ (v : World). v.execution) (sym (ap (λ (r : Outcome Bool × World). r.1) q))
        ∙ ap
            (λ (v : World). record v.execution {
              node_executions =
                  Dict.adjust s.execution_id (ensure_owned s.id) v.execution.node_executions;
            })
            same
