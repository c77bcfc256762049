-- ===== src/TaskList/State.antt =====
-- The tasks and their merge. `none` stands for the ValueError of the validator of TaskList.
use codeng.Prelude.{
  ℕ, suc, Bool, true, false, Option, none, some, List, [], ◌∷◌, ◌++◌, leb, if◌then◌else◌, ◌||◌,
}
use codeng.Prelude.Texts
use codeng.Prelude.Texts.{text_eq}
use codeng.Workflow.Data.{Text}

pub data TaskStatus : Type 0 where
  pending in_progress completed : TaskStatus

pub record Task : Type 0 where
  pub id : Text
  pub title : Text
  pub status : TaskStatus

abbrev pub is_in_progress : TaskStatus → Bool
is_in_progress in_progress = true
is_in_progress _ = false

unfoldable pub in_progress_count : List Task → ℕ
in_progress_count [] = 0
in_progress_count (t ∷ ts) =
    let rest = in_progress_count ts in if is_in_progress t.status then suc rest else rest

unfoldable pub validated : List Task → Option (List Task)
unfolding in_progress_count
validated todos = if leb (in_progress_count todos) 1 then some todos else none

-- what the state of the execution holds under the key: nothing, or what was stored; `none` is a value
-- that has not the form of a task list
unfoldable pub get_task_list : Option (Option (List Task)) → List Task
unfolding validated
get_task_list none = []
get_task_list (some none) = []
get_task_list (some (some todos)) = elim (validated todos) [ none ↦ [] | some valid ↦ valid ]

unfoldable pub by_id : List Task → List (Text × Task) → List (Text × Task)
by_id [] d = d
by_id (t ∷ ts) d = by_id ts (Texts.put t.id t d)

-- `d.pop(k, None)`
unfoldable pub pop : Text → List (Text × Task) → List (Text × Task)
pop k [] = []
pop k ((j, t) ∷ d) = if text_eq j k then d else (j, t) ∷ pop k d

abbrev updated : Option Task → Task → Task
updated none task = task
updated (some existing) task = record { id = task.id; title = task.title; status = task.status }

unfoldable pub merge_new : List (Text × Task) → List Task → List Task
unfolding pop
merge_new existing [] = []
merge_new existing (task ∷ tasks) =
    updated (Texts.get task.id existing) task ∷ merge_new (pop task.id existing) tasks

unfoldable pub has_id : Text → List Task → Bool
has_id id [] = false
has_id id (t ∷ ts) = text_eq t.id id || has_id id ts

unfoldable pub append_remaining : List Task → List Task → List Task
unfolding has_id
append_remaining merged [] = merged
append_remaining merged (t ∷ ts) =
    append_remaining (if has_id t.id merged then merged else merged ++ t ∷ []) ts

unfoldable pub merge_tasks : List Task → List Task → Bool → Option (List Task)
unfolding validated by_id merge_new append_remaining
merge_tasks existing new_tasks false = validated new_tasks
merge_tasks existing new_tasks true =
    validated (append_remaining (merge_new (by_id existing []) new_tasks) existing)
