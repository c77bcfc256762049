-- ===== src/TaskList/Tests.antt =====
-- Plans of tasks at concrete inputs.
use codeng.Prelude.{refl, true, some, List, [], ◌∷◌}
use codeng.Prelude.Texts
use codeng.Prelude.Strings.{codes}
use codeng.TaskList.State.{
  TaskStatus, pending, in_progress, completed, Task, merge_tasks, by_id, merge_new,
  append_remaining, pop, validated, has_id, in_progress_count,
}
use codeng.TaskList.Merge.{IsMerged, IsUnique, merge_tasks-IsMerged}
use codeng.TaskList.Tool.{Arguments, arguments, object, text, absent, status, Saved, update_plan}
use codeng.TaskList.Saved.{Saves, update_plan-Saves}

abbrev read : TaskStatus → Task
read st = record { id = codes "1"; title = codes "read"; status = st }

abbrev write : TaskStatus → Task
write st = record { id = codes "2"; title = codes "write"; status = st }

abbrev test : Task
test = record { id = codes "3"; title = codes "test"; status = pending }

abbrev old : List Task
old = read in_progress ∷ write pending ∷ []

abbrev new : List Task
new = test ∷ read completed ∷ []

new-IsUnique : IsUnique new
unfolding IsUnique has_id
new-IsUnique = (refl, (refl, tt))

merge_tasks-IsMerged_example : IsMerged old new (test ∷ read completed ∷ write pending ∷ [])
unfolding merge_tasks by_id merge_new append_remaining pop validated has_id in_progress_count
    Texts.put Texts.get
merge_tasks-IsMerged_example =
    merge_tasks-IsMerged old new (test ∷ read completed ∷ write pending ∷ []) new-IsUnique refl

-- the second task begins before the first is done, which is refused
abbrev two_at_once : Arguments
two_at_once = arguments true (object (text (codes "2")) absent (status in_progress) ∷ [])

abbrev saved : Saved
saved = some (some old)

update_plan-Saves_example : Saves saved (update_plan two_at_once saved)
update_plan-Saves_example = update_plan-Saves two_at_once saved
