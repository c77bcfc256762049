-- ===== src/History/Steps/Ends.antt =====
-- `upsert_step` and its stages end.
use codeng.Prelude.{
  ◌≢◌, arith, Bool, true, false, Option, none, some, if◌then◌else◌, inl, inr, Option-cases, not,
  ◌&&◌, ◌==◌, option_eq,
}
use codeng.Prelude.Dict
use codeng.Workflow.Data.{Uuid, Step, NodeExecution}
use codeng.Workflow.Action.{
  raised, diverged, key_error, World, ◌>>◌, pure, raise, read, modify, found, bind-ne,
}
use codeng.Workflow.Access.{get_step, get_branch, get_node_execution}
use codeng.History.Walk.{get_path_from_head}
use codeng.History.Branches.{ensure_default_branch, refresh_step_ids}
use codeng.History.Steps.{
  is_none, should_refresh, missing_message, attach, without_id, add_visible, follows, on_node,
  on_branch, ensure_owned, set_head, needs_base, leave_node, leave_parent_of, append_visible,
  append_owned, append_both, append_step_projection, claim_branch, unlink, link, project,
  settle_head, settle_base, root_base, place_step, upsert_on_branch, upsert_over, upsert_step,
}
use codeng.History.Ends.{
  Ends, if-Ends, found-ne-diverged, ok-ne-diverged, get_step-Found, get_branch-Found,
  get_node_execution-Found, get_path_from_head-Found, ensure_default_branch-Ends,
  refresh_step_ids-Ends,
}

append_owned-Ends : (b : Uuid) (s : Step) → Ends (append_owned b s)
unfolding append_owned
append_owned-Ends b s w =
    bind-ne diverged (read (get_node_execution s.execution_id)) _ w
      (get_node_execution-Found s.execution_id w.execution) (λ n w1. ok-ne-diverged _)

append_visible-Ends : (b : Uuid) (s : Step) → Ends (append_visible b s)
unfolding append_visible
append_visible-Ends b s w =
    if-Ends _
      (λ v.
        (if follows s w.execution.step_ids
            then (modify (add_visible s.id) >> pure true)
            else pure false)
          v)
      (pure true)
      (if-Ends (follows s w.execution.step_ids) (modify (add_visible s.id) >> pure true)
        (pure false) (λ v. ok-ne-diverged _) (λ v. ok-ne-diverged _))
      (λ v. ok-ne-diverged _) w

append_both-Ends : (b : Uuid) (s : Step) → Ends (append_both b s)
unfolding append_both
append_both-Ends b s w =
    bind-ne diverged (append_visible b s) _ w (append_visible-Ends b s w) (λ fits.
      if-Ends fits (append_owned b s) (pure false) (append_owned-Ends b s) (λ v. ok-ne-diverged _))

append_step_projection-Ends : (b : Uuid) (s : Step) → Ends (append_step_projection b s)
unfolding append_step_projection
append_step_projection-Ends b s w =
    bind-ne diverged (read (get_branch b)) _ w (get_branch-Found b w.execution) (λ branch.
      if-Ends (option_eq branch.head_step_id s.parent_step_id) (append_both b s) (pure false)
        (append_both-Ends b s) (λ v. ok-ne-diverged _))

claim_branch-Ends : (n : NodeExecution) (k : Uuid) → Ends (claim_branch n k)
unfolding claim_branch
claim_branch-Ends n k w = elim (Option-cases n.branch_id) [
  | inl missing ↦
      rw (missing, claim_branch)
        (bind-ne diverged (read (λ e. found e.active_branch_id)) _ w (found-ne-diverged _)
          (λ a w1. ok-ne-diverged _))
  | inr (b, there) ↦ rw (there, claim_branch) (ok-ne-diverged _)
]

link-Ends : (s : Step) → Ends (link s)
unfolding link
link-Ends s w = elim (Option-cases s.parent_step_id) [
  | inl root ↦ rw (root, link) (ok-ne-diverged _)
  | inr (p, child) ↦
      rw (child, link)
        (bind-ne diverged (read (get_step p)) _ w (get_step-Found p w.execution)
          (λ a w1. ok-ne-diverged _))
]

project-Ends : (old : Option Step) (b : Uuid) (s : Step) → Ends (project old b s)
unfolding project
project-Ends (some old) b s w = ok-ne-diverged _
project-Ends none b s w =
    bind-ne diverged (append_step_projection b s) _ w (append_step_projection-Ends b s w)
      (λ appended w1.
        bind-ne diverged
          (if appended then pure tt else modify (on_node s.execution_id (ensure_owned s.id))) _ w1
          (if-Ends appended (pure tt) (modify (on_node s.execution_id (ensure_owned s.id)))
            (λ v. ok-ne-diverged _) (λ v. ok-ne-diverged _) w1)
          (λ u w2. ok-ne-diverged _))

settle_head-Ends : (outside : Bool) (b : Uuid) (s : Step) → Ends (settle_head outside b s)
unfolding settle_head
settle_head-Ends outside b s w =
    bind-ne diverged (read (get_branch b)) _ w (get_branch-Found b w.execution) (λ branch.
      if-Ends _ (modify (on_branch b (set_head s.id))) (pure tt) (λ v. ok-ne-diverged _)
        (λ v. ok-ne-diverged _))

root_base-Ends : (b : Uuid) (s : Step) → Ends (root_base b s)
unfolding root_base
root_base-Ends b s w =
    bind-ne diverged (read (get_path_from_head (some s.id))) _ w
      (get_path_from_head-Found (some s.id) w.execution) (λ path w1. ok-ne-diverged _)

settle_base-Ends : (b : Uuid) (s : Step) → Ends (settle_base b s)
unfolding settle_base
settle_base-Ends b s w =
    bind-ne diverged (read (get_branch b)) _ w (get_branch-Found b w.execution) (λ branch.
      if-Ends (needs_base branch s) (root_base b s) (pure tt) (root_base-Ends b s)
        (λ v. ok-ne-diverged _))

leave_node-Ends : (old s : Step) → Ends (leave_node old s)
leave_node-Ends old s =
    if-Ends (old.execution_id == s.execution_id) (pure tt)
      (read (get_node_execution old.execution_id)
        >> modify
            (on_node old.execution_id (λ n. record n { step_ids = without_id s.id n.step_ids })))
      (λ v. ok-ne-diverged _)
      (λ v.
        bind-ne diverged (read (get_node_execution old.execution_id)) _ v
          (get_node_execution-Found old.execution_id v.execution) (λ n v1. ok-ne-diverged _))

leave_parent_of-Ends : (k : Option Uuid) (s : Step) → Ends (leave_parent_of k s)
leave_parent_of-Ends none s w = ok-ne-diverged _
leave_parent_of-Ends (some k) s w = ok-ne-diverged _

unlink-Ends : (old : Option Step) (s : Step) → Ends (unlink old s)
unfolding unlink
unlink-Ends none s w = ok-ne-diverged _
unlink-Ends (some old) s w = bind-ne diverged (leave_node old s) _ w (leave_node-Ends old s w) (λ _.
    if-Ends (option_eq old.parent_step_id s.parent_step_id) (pure tt)
      (leave_parent_of old.parent_step_id s) (λ v. ok-ne-diverged _)
      (leave_parent_of-Ends old.parent_step_id s))

place_step-Ends : (old : Option Step) (b : Uuid) (s : Step) → Ends (place_step old b s)
unfolding place_step
place_step-Ends old b s w = bind-ne diverged (unlink old s) _ w (unlink-Ends old s w) (λ _ w1.
    bind-ne diverged (link s) _ w1 (link-Ends s w1) (λ _ w2.
      bind-ne diverged (project old b s) _ _ (project-Ends old b s _) (λ appended w3.
        bind-ne diverged (settle_head (is_none old && not appended) b s) _ w3
          (settle_head-Ends _ b s w3)
          (λ _ w4. bind-ne diverged (settle_base b s) _ w4 (settle_base-Ends b s w4) (λ _ w5.
            bind-ne diverged (if should_refresh old appended s then refresh_step_ids else pure tt) _
              w5
              (if-Ends (should_refresh old appended s) refresh_step_ids (pure tt)
                refresh_step_ids-Ends (λ v. ok-ne-diverged _) w5)
              (λ _ w6. ok-ne-diverged _))))))

upsert_on_branch-Ends : (old : Option Step) (s : Step) (b : Uuid) → Ends (upsert_on_branch old s b)
unfolding upsert_on_branch
upsert_on_branch-Ends old s b w =
    bind-ne diverged (read (get_branch b)) _ w (get_branch-Found b w.execution) (λ branch w1.
      if-Ends (missing_message s w1.execution) (raise key_error)
        (place_step old b (attach old branch s)) (λ v. (λ p. ground arith))
        (place_step-Ends old b (attach old branch s)) w1)

upsert_over-Ends : (old : Option Step) (s : Step) → Ends (upsert_over old s)
unfolding upsert_over
upsert_over-Ends old s w =
    bind-ne diverged (read (get_node_execution s.execution_id)) _ w
      (get_node_execution-Found s.execution_id w.execution)
      (λ n w1.
        bind-ne diverged (claim_branch n s.execution_id) _ w1
          (claim_branch-Ends n s.execution_id w1) (λ b w2. upsert_on_branch-Ends old s b w2))

-- Storing a step, a new one or a new version of one, never runs for ever, whatever the workflow
-- holds: the loops that it enters end, even where the parents of the stored steps form a cycle.
pub upsert_step-ne-diverged : (s : Step) (w : World) → (upsert_step s w).0 ≢ raised diverged
unfolding upsert_step
upsert_step-ne-diverged s w =
    bind-ne diverged ensure_default_branch _ w (ensure_default_branch-Ends w)
      (λ b w1. upsert_over-Ends (Dict.get s.id w1.execution.steps_by_id) s w1)
