-- ===== src/History/Steps/Upsert.antt =====
-- A new step keeps the view: the fast path of `upsert_step`, which appends the id, gives what a
-- recomputation would give, and otherwise the code recomputes.
use codeng.Prelude.{
  suc, ◌≡◌, ◌≤◌, refl, arith, true, false, none, some, inl, inr, Bool-cases, Option-cases, ◌∙◌,
  option_eq, option_eq_iff, length, ==_iff, ==_refl, ◌==◌, ◌≢◌,
}
use codeng.Prelude.Dict
use codeng.Prelude.Dict.{Dict, get-adjust, get-put, length-adjust, length-put_new}
use codeng.Workflow.Data.{Uuid, WorkflowExecution, Step, BranchRecord}
use codeng.History.Walk.Grow.{Keeps}
use codeng.History.Walk.Shows.{Shows, Shows-kept, compute_grown}
use codeng.History.Steps.{store_step, add_child, advance}
use codeng.History.Steps.Stages.{linked, linked_steps, appended}

-- the parent's list of children changes, and no parent
linked_steps_keeps :
    (s : Step) (d : Dict Step) (k : Uuid) (t : Step)
    → Dict.get k d ≡ some t
    → (t' : Step) × (Dict.get k (linked_steps s d) ≡ some t')
      × (t'.parent_step_id ≡ t.parent_step_id)
linked_steps_keeps s d k t h = elim (Option-cases s.parent_step_id) [
  | inl root ↦ (t, rw (root, linked_steps) h, refl)
  | inr (p, child) ↦ elim (Bool-cases (p == k)) [
    | inl hit ↦ (
      add_child s.id t,
      rw (child, linked_steps, get-adjust p (add_child s.id) k d, hit, h) refl,
      refl,
    )
    | inr miss ↦ (t, rw (child, linked_steps, get-adjust p (add_child s.id) k d, miss) h, refl)
  ]
]

linked_steps_new :
    (s : Step) (d : Dict Step) (k : Uuid)
    → Dict.get k d ≡ none
    → Dict.get k (linked_steps s d) ≡ none
linked_steps_new s d k h = elim (Option-cases s.parent_step_id) [
  | inl root ↦ rw (root, linked_steps) h
  | inr (p, child) ↦ rw (child, linked_steps) (ground (arith, get-adjust p (add_child s.id) k d))
]

length-linked_steps : (s : Step) (d : Dict Step) → length (linked_steps s d) ≡ length d
length-linked_steps s d = elim (Option-cases s.parent_step_id) [
  | inl root ↦ rw (root, linked_steps) refl
  | inr (p, child) ↦ rw (child, linked_steps) (length-adjust p (add_child s.id) d)
]

module _ (s : Step) (e : WorkflowExecution) (fresh : Dict.get s.id e.steps_by_id ≡ none) where
  abbrev pub stored : WorkflowExecution
  stored = store_step s (linked s e)

  stored_there : Dict.get s.id stored.steps_by_id ≡ some s
  stored_there = rw (get-put s.id s.id s (linked_steps s e.steps_by_id), ==_refl s.id) refl

  stored-Keeps : Keeps e stored
  stored-Keeps = record {
    keeps = λ k t h.
        let (t', there, same) = linked_steps_keeps s e.steps_by_id k t h in
        (t', ground (arith, get-put s.id k s (linked_steps s e.steps_by_id)), same);
  }

  stored_longer : suc (length e.steps_by_id) ≤ length stored.steps_by_id
  stored_longer = omega (
    arith,
    length-linked_steps s e.steps_by_id,
    length-put_new s.id s (linked_steps s e.steps_by_id)
        (linked_steps_new s e.steps_by_id s.id fresh),
  )

  module _ (b : Uuid) (r : BranchRecord) (there : Dict.get b e.branches_by_id ≡ some r)
      (follows : r.head_step_id ≡ s.parent_step_id) (shows : Shows e) where
    advanced : Dict.get b (appended b s stored).branches_by_id ≡ some (advance s r)
    advanced = rw (get-adjust b (advance s) b e.branches_by_id, ==_refl b, there) refl

    appended_active : shows.active ≡ b → Shows (appended b s stored)
    appended_active here =
        let seen : option_eq e.active_branch_id (some b) ≡ true =
          (option_eq_iff e.active_branch_id (some b)).1 (cc (shows.is_active, here)) in
        record {
          active = b;
          is_active = cc (shows.is_active, here);
          computed =
              compute_grown {e = e} {e' = appended b s stored}
                (record { keeps = stored-Keeps.keeps }) b e.step_ids r (advance s r) s there
                advanced refl follows fresh stored_there stored_longer (rw (← here) shows.computed)
              ∙ rw seen refl;
          keyed = λ b1 p. cc (p, advanced, here, shows.keyed r (rw here there));
        }

    appended_other : shows.active ≢ b → Shows (appended b s stored)
    appended_other other =
        let unseen : option_eq e.active_branch_id (some b) ≡ false =
          inactive (option_eq_iff e.active_branch_id (some b)).0 in
        Shows-kept {e = e} {e' = appended b s stored} (record { keeps = stored-Keeps.keeps }) shows
          (λ b1 p. (b1, elsewhere b1 p, refl, refl)) (omega (arith, stored_longer)) refl
          (rw unseen refl)
      where
        inactive :
            (option_eq e.active_branch_id (some b) ≡ true → e.active_branch_id ≡ some b)
            → option_eq e.active_branch_id (some b) ≡ false
        inactive f = elim (Bool-cases (option_eq e.active_branch_id (some b))) [
          | inl same ↦ absurd (other (cc (f same, shows.is_active)))
          | inr different ↦ different
        ]

        elsewhere :
            (b1 : BranchRecord)
            → Dict.get shows.active e.branches_by_id ≡ some b1
            → Dict.get shows.active (Dict.adjust b (advance s) e.branches_by_id) ≡ some b1
        elsewhere b1 p = ground (arith, get-adjust b (advance s) shows.active e.branches_by_id)

    -- Where the projection appended the step, the visible ids are those of the active branch.
    pub appended-Shows : Shows (appended b s stored)
    appended-Shows = elim (Bool-cases (shows.active == b)) [
      | inl here ↦ appended_active ((==_iff shows.active b).0 here)
      | inr other ↦ appended_other (λ p. cc ((==_iff shows.active b).1 p, other))
    ]
