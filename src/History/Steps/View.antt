-- ===== src/History/Steps/View.antt =====
-- `upsert_step` of a new step keeps the view of the active branch, whichever branch the step joins.
use codeng.Prelude.{
  ◌≡◌, refl, sym, ap, arith, Bool, true, false, Option, none, some, inl, inr, Bool-cases,
  Option-cases, ◌∙◌, if◌then◌else◌, subst, not, ◌==◌,
}
use codeng.Prelude.Dict
use codeng.Prelude.Dict.{get-adjust}
use codeng.Workflow.Data.{Uuid, WorkflowExecution, Step, BranchRecord, NodeExecution}
use codeng.Workflow.Action.{ok, World, M, pure, read, ◌>>=◌, ◌>>◌, bind-ok}
use codeng.Workflow.Access.{get_branch, get_node_execution}
use codeng.History.Walk.Shows.{Shows, Shows-kept, branch_of}
use codeng.History.Branches.{ensure_default_branch, refresh_step_ids}
use codeng.History.Branches.Refresh.{ensure_default_branch_there, refresh_step_ids-Shows}
use codeng.History.Steps.{
  upsert_step, upsert_over, upsert_on_branch, place_step, link, project, settle_head, settle_base,
  store_step, claim_branch, attach, on_branch, set_head, missing_message, ensure_owned, unlink,
}
use codeng.History.Steps.Stages.{
  link-ok, appended, head_of_appended, append_step_projection-true, project-true, project-false,
}
use codeng.History.Steps.Settle.{Settled, Shows-Settled, settle_head-Settled, settle_base-Settled}
use codeng.History.Steps.Upsert.{stored, appended-Shows}
use native.Mathlib.Nat.{le_refl}

-- the active branch is in the dictionary, under its own id
record HasActive (e : WorkflowExecution) : Type 0 where
  active : Uuid
  branch : BranchRecord
  is_active : e.active_branch_id ≡ some active
  there : Dict.get active e.branches_by_id ≡ some branch
  keyed : branch.id ≡ active

Shows-HasActive : {e : WorkflowExecution} → Shows e → HasActive e
Shows-HasActive {e} shows =
    let (b, there, _) = branch_of shows.active e e.step_ids shows.computed in
    record {
      active = shows.active;
      branch = b;
      is_active = shows.is_active;
      there = there;
      keyed = shows.keyed b there;
    }

HasActive-Settled : {e e' : WorkflowExecution} → Settled e e' → HasActive e → HasActive e'
HasActive-Settled settled h =
    let (b', there', _, id) = settled.branches h.active h.branch h.there in
    record {
      active = h.active;
      branch = b';
      is_active = cc (settled.rest, h.is_active);
      there = there';
      keyed = id ∙ h.keyed;
    }

refresh-Shows :
    (w w' : World) {u : Unit {0}}
    → HasActive w.execution
    → refresh_step_ids w ≡ (ok u, w')
    → Shows w'.execution
refresh-Shows w w' h r = refresh_step_ids-Shows w w' h.active h.branch h.is_active h.there h.keyed r

head_moved :
    (k : Uuid) (s : Step) (w w' : World) {u : Unit {0}}
    → settle_head true k s w ≡ (ok u, w')
    → w' ≡ record w { execution = on_branch k (set_head s.id) w.execution }
unfolding settle_head get_branch
head_moved k s w w' r = ground arith

on_branch-HasActive :
    (k : Uuid) (x : Uuid) (e : WorkflowExecution)
    → HasActive e
    → HasActive (on_branch k (set_head x) e)
on_branch-HasActive k x e h = record {
  active = h.active;
  branch = if k == h.active then set_head x h.branch else h.branch;
  is_active = h.is_active;
  there = ground (arith, get-adjust k (set_head x) h.active e.branches_by_id, h.there);
  keyed = ground (arith, h.keyed);
}

settle_head-HasActive :
    (outside : Bool) (k : Uuid) (s : Step) (w w' : World) {u : Unit {0}}
    → HasActive w.execution
    → settle_head outside k s w ≡ (ok u, w')
    → HasActive w'.execution
settle_head-HasActive false k s w w' h r = HasActive-Settled (settle_head-Settled k s w w' r) h
settle_head-HasActive true k s w w' h r =
    subst (λ (v : World). HasActive v.execution) (sym (head_moved k s w w' r))
      (on_branch-HasActive k s.id w.execution h)

-- what comes after the projection of a new step
abbrev finish : Bool → Uuid → Step → M Step
finish done b s = do
  settle_head (not done) b s
  settle_base b s
  if not done then refresh_step_ids else pure tt
  pure s

finish-Shows :
    (b : Uuid) (s r : Step) (w w' : World)
    → Shows w.execution
    → finish true b s w ≡ (ok r, w')
    → Shows w'.execution
finish-Shows b s r w w' shows h =
    let (_, w1, p1, q1) = bind-ok (settle_head false b s) _ w h in
    let (_, w2, p2, q2) = bind-ok (settle_base b s) _ w1 q1 in
    let same : w' ≡ w2 = cc q2 in
    subst (λ (v : World). Shows v.execution) (sym same)
      (Shows-Settled (settle_base-Settled b s w1 w2 p2)
        (Shows-Settled (settle_head-Settled b s w w1 p1) shows))

finish_refresh-Shows :
    (b : Uuid) (s r : Step) (w w' : World)
    → HasActive w.execution
    → finish false b s w ≡ (ok r, w')
    → Shows w'.execution
finish_refresh-Shows b s r w w' active h =
    let (_, w1, p1, q1) = bind-ok (settle_head true b s) _ w h in
    let (_, w2, p2, q2) = bind-ok (settle_base b s) _ w1 q1 in
    let (_, w3, p3, q3) = bind-ok refresh_step_ids _ w2 q2 in
    let same : w' ≡ w3 = cc q3 in
    subst (λ (v : World). Shows v.execution) (sym same)
      (refresh-Shows w2 w3
        (HasActive-Settled (settle_base-Settled b s w1 w2 p2)
          (settle_head-HasActive true b s w w1 active p1))
        p3)

abbrev with_owned : Step → WorkflowExecution → WorkflowExecution
with_owned s e = record e {
  node_executions = Dict.adjust s.execution_id (ensure_owned s.id) e.node_executions;
}

-- a new step that is stored and not yet projected
project-Shows :
    (b : Uuid) (s r : Step) (e : WorkflowExecution) (w w' : World)
    (fresh : Dict.get s.id e.steps_by_id ≡ none)
    → Shows e
    → w.execution ≡ stored s e fresh
    → (project none b s >>= λ done. finish done b s) w ≡ (ok r, w')
    → Shows w'.execution
project-Shows b s r e w w' fresh shows at h =
    let (done, w1, p, q) = bind-ok (project none b s) _ w h in after done w1 p q
  where
    after :
        (done : Bool) (w1 : World)
        → project none b s w ≡ (ok done, w1)
        → finish done b s w1 ≡ (ok r, w')
        → Shows w'.execution
    after true w1 p q =
        let a = project-true b s w w1 p in
        let (branch, there, follows) = head_of_appended b s w w1 a in
        let same : w1.execution ≡ appended b s (stored s e fresh) =
          ap (λ (v : World). v.execution) (append_step_projection-true b s w w1 a)
          ∙ ap (appended b s) at in
        finish-Shows b s r w1 w'
          (subst Shows (sym same)
            (appended-Shows s e fresh b branch (rw at at there) follows shows))
          q
    after false w1 p q =
        let h : HasActive e = Shows-HasActive shows in
        let same = project-false b s w w1 p ∙ ap (with_owned s) at in
        finish_refresh-Shows b s r w1 w'
          (subst HasActive (sym same) (record {
            active = h.active;
            branch = h.branch;
            is_active = h.is_active;
            there = h.there;
            keyed = h.keyed;
          }))
          q

place_step-Shows :
    (b : Uuid) (s r : Step) (w w' : World)
    → Shows w.execution
    → Dict.get s.id w.execution.steps_by_id ≡ none
    → place_step none b s w ≡ (ok r, w')
    → Shows w'.execution
unfolding place_step unlink
place_step-Shows b s r w w' shows fresh h =
    let (_, w1, p, q) = bind-ok (link s) _ w h in
    project-Shows b s r w.execution (record w1 { execution = store_step s w1.execution }) w' fresh
      shows (ap (λ (v : World). store_step s v.execution) (link-ok s w w1 p)) q

-- a node execution that joins a branch is not part of the view
claim_branch_rest :
    (n : NodeExecution) (k b : Uuid) (w w' : World)
    → claim_branch n k w ≡ (ok b, w')
    → w'.execution ≡ record w.execution { node_executions = w'.execution.node_executions }
unfolding claim_branch
claim_branch_rest n k b w w' h = ground arith

nodes-Shows :
    (e e' : WorkflowExecution)
    → e' ≡ record e { node_executions = e'.node_executions }
    → Shows e
    → Shows e'
nodes-Shows e e' rest shows = subst Shows (sym rest) (
    Shows-kept {e = e} {e' = record e { node_executions = e'.node_executions }}
      (record { keeps = λ j s p. (s, p, refl) }) shows (λ b p. (b, p, refl, refl)) (le_refl _) refl
      refl)

attach_id : (b : BranchRecord) (s : Step) → (attach none b s).id ≡ s.id
attach_id b s = elim (Option-cases s.parent_step_id) [
  | inl root ↦ rw (root, attach) refl
  | inr (p, child) ↦ rw (child, attach) refl
]

upsert_on_branch-Shows :
    (b : Uuid) (s r : Step) (w w' : World)
    → Shows w.execution
    → Dict.get s.id w.execution.steps_by_id ≡ none
    → upsert_on_branch none s b w ≡ (ok r, w')
    → Shows w'.execution
unfolding upsert_on_branch get_branch
upsert_on_branch-Shows b s r w w' shows fresh h =
    elim (Option-cases (Dict.get b w.execution.branches_by_id)) [
      | inl missing ↦ absurd (ground arith)
      | inr (branch, there) ↦ elim (Bool-cases (missing_message s w.execution)) [
        | inl unknown ↦ absurd (ground arith)
        | inr known ↦
            place_step-Shows b (attach none branch s) r w w' shows (rw (attach_id branch s) fresh)
              (ground arith)
      ]
    ]

upsert_over-Shows :
    (s r : Step) (w w' : World)
    → Shows w.execution
    → Dict.get s.id w.execution.steps_by_id ≡ none
    → upsert_over none s w ≡ (ok r, w')
    → Shows w'.execution
unfolding upsert_over
upsert_over-Shows s r w w' shows fresh h =
    let (node, w1, p, q) = bind-ok (read (get_node_execution s.execution_id)) _ w h in
    let (b, w2, p2, q2) = bind-ok (claim_branch node s.execution_id) _ w1 q in
    let same : w1 ≡ w = cc p in
    let rest = claim_branch_rest node s.execution_id b w1 w2 p2 in
    upsert_on_branch-Shows b s r w2 w'
      (nodes-Shows w1.execution w2.execution rest
        (subst (λ (v : World). Shows v.execution) (sym same) shows))
      (ap (λ (e : WorkflowExecution). Dict.get s.id e.steps_by_id) rest
        ∙ ap (λ (v : World). Dict.get s.id v.execution.steps_by_id) same
        ∙ fresh)
      q2

-- Where the visible ids are those that would be computed for the active branch, they still are
-- when a step with an unknown id was stored and the call returned, whichever branch the step
-- joins: appending its id gives what a recomputation would give.
pub upsert_step-Shows :
    (s r : Step) (w w' : World)
    → Shows w.execution
    → Dict.get s.id w.execution.steps_by_id ≡ none
    → upsert_step s w ≡ (ok r, w')
    → Shows w'.execution
unfolding upsert_step
upsert_step-Shows s r w w' shows fresh h =
    let a = Shows-HasActive shows in
    let (b0, w1, p, q) = bind-ok ensure_default_branch _ w h in
    let same : w1 ≡ w =
      cc (p, ensure_default_branch_there w a.active a.branch a.is_active a.there) in
    let absent : Dict.get s.id w1.execution.steps_by_id ≡ none =
      ap (λ (v : World). Dict.get s.id v.execution.steps_by_id) same ∙ fresh in
    upsert_over-Shows s r w1 w' (subst (λ (v : World). Shows v.execution) (sym same) shows) absent
      (ap (λ (o : Option Step). upsert_over o s w1) (sym absent) ∙ q)
