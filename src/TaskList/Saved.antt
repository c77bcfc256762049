-- ===== src/TaskList/Saved.antt =====
-- What a call of update_plan leaves in the state of the execution.
use codeng.Prelude.{
  ◌≤◌, ◌≡◌, refl, arith, ◌∙◌, sym, Bool, true, false, some, List, [], ◌∷◌, Option-cases, inl, inr,
}
use codeng.TaskList.State.{
  append_remaining, merge_new, by_id, Task, in_progress_count, validated, get_task_list,
  merge_tasks,
}
use codeng.TaskList.Merge.{validated-count}
use codeng.TaskList.Tool.{
  Checked, ok, raised, Arguments, not_object, arguments, Saved, merged_plan, saved_plan,
  check_todos, update_plan,
}

-- an exception leaves what was saved; a plan is what is read back, with one task in progress at most
abbrev pub Saves : Saved → Checked (List Task) × Saved → Type 0
Saves saved (raised e, after) = after ≡ saved
Saves saved (ok plan, after) = (get_task_list after ≡ plan) × (in_progress_count plan ≤ 1)

-- a plan that passed the validator
abbrev Passed : Checked (List Task) → Type 0
Passed (raised e) = Unit
Passed (ok plan) = in_progress_count plan ≤ 1

merge_tasks-validated :
    (existing new_tasks : List Task) (merge : Bool)
    → (ts : List Task) × (merge_tasks existing new_tasks merge ≡ validated ts)
unfolding merge_tasks
merge_tasks-validated existing new_tasks false = (new_tasks, refl)
merge_tasks-validated existing new_tasks true =
    (append_remaining (merge_new (by_id existing []) new_tasks) existing, refl)

merged_plan-Passed :
    (merge : Bool) (current : List Task) (c : Checked (List Task))
    → Passed (merged_plan merge current c)
unfolding merged_plan
merged_plan-Passed merge current (raised e) = tt
merged_plan-Passed merge current (ok todos) =
    elim (Option-cases (merge_tasks current todos merge)) [
      | inl many ↦ rw (many, merged_plan) tt
      | inr (plan, fine) ↦
          let (ts, v) = merge_tasks-validated current todos merge in
          rw (fine, merged_plan) (validated-count ts plan (sym v ∙ fine)).1
    ]

get_task_list-saved :
    (plan : List Task) → in_progress_count plan ≤ 1 → get_task_list (some (some plan)) ≡ plan
unfolding get_task_list validated
get_task_list-saved plan few = ground (arith, few)

saved_plan-Saves :
    (saved : Saved) (c : Checked (List Task)) → Passed c → Saves saved (saved_plan saved c)
saved_plan-Saves saved (raised e) p = refl
saved_plan-Saves saved (ok plan) p = (get_task_list-saved plan p, p)

-- A call of update_plan that raises leaves the plan that was saved as it was; a call that returns a
-- plan saves it, so that it is what the next call reads, and at most one of its tasks is in progress.
pub update_plan-Saves : (args : Arguments) (saved : Saved) → Saves saved (update_plan args saved)
unfolding update_plan
update_plan-Saves not_object saved = refl
update_plan-Saves (arguments merge []) saved = refl
update_plan-Saves (arguments merge (x ∷ xs)) saved =
    let c =
      merged_plan merge (get_task_list saved) (check_todos merge (get_task_list saved) (x ∷ xs)) in
    saved_plan-Saves saved c (
      merged_plan-Passed merge (get_task_list saved)
        (check_todos merge (get_task_list saved) (x ∷ xs)))
