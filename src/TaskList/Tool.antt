-- ===== src/TaskList/Tool.antt =====
-- The call of the tool update_plan: its arguments are checked, and the plan of the execution is
-- replaced or merged. Of an exception the kind is kept; the JSON text of the answer is the plan.
use codeng.Prelude.{Bool, true, false, Option, none, some, List, [], ◌∷◌, if◌then◌else◌}
use codeng.Prelude.Texts.{text_eq}
use codeng.Workflow.Data.{Text}
use codeng.TaskList.State.{Task, TaskStatus, get_task_list, merge_tasks}

pub data PlanError : Type 0 where
  not_an_object no_todos todo_not_an_object no_id no_status invalid_status : PlanError
  no_title two_in_progress invalid_task : PlanError

-- a value of the arguments: left out or null, of the wrong type, or a text
pub data Value : Type 0 where
  absent wrong_type : Value
  text : Text → Value

pub data RawStatus : Type 0 where
  no_value unknown : RawStatus
  status : TaskStatus → RawStatus

pub data RawTodo : Type 0 where
  not_object : RawTodo
  object : Value → Value → RawStatus → RawTodo

pub data Arguments : Type 0 where
  not_object : Arguments
  arguments : Bool → List RawTodo → Arguments

pub data Checked (A : Type 0) : Type 0 where
  ok : A → Checked A
  raised : PlanError → Checked A

unfoldable pub title_of : Text → List Task → Option Text
title_of id [] = none
title_of id (t ∷ ts) = if text_eq t.id id then some t.title else title_of id ts

-- the title of a task that is merged, or that is in a new plan
unfoldable pub merged_title : Text → List Task → Value → Checked Text
unfolding title_of
merged_title id current (text t) = ok t
merged_title id current wrong_type = raised invalid_task
merged_title id current absent = elim (title_of id current) [
  | some t ↦ ok t
  | none ↦ raised no_title
]

unfoldable pub new_title : Value → Checked Text
new_title (text (c ∷ cs)) = ok (c ∷ cs)
new_title _ = raised no_title

unfoldable pub checked_title : Bool → Text → List Task → Value → Checked Text
unfolding merged_title new_title
checked_title true id current title = merged_title id current title
checked_title false id current title = new_title title

abbrev with_title : Text → TaskStatus → Checked Text → Checked Task
with_title id st (ok title) = ok (record { id = id; title = title; status = st })
with_title id st (raised e) = raised e

unfoldable pub check_todo : Bool → List Task → RawTodo → Checked Task
unfolding checked_title
check_todo merge current not_object = raised todo_not_an_object
check_todo merge current (object (text (c ∷ cs)) title (status st)) =
    with_title (c ∷ cs) st (checked_title merge (c ∷ cs) current title)
check_todo merge current (object (text (c ∷ cs)) title no_value) = raised no_status
check_todo merge current (object (text (c ∷ cs)) title unknown) = raised invalid_status
check_todo merge current (object _ title st) = raised no_id

abbrev cons : Task → Checked (List Task) → Checked (List Task)
cons t (ok ts) = ok (t ∷ ts)
cons t (raised e) = raised e

unfoldable pub check_todos : Bool → List Task → List RawTodo → Checked (List Task)
unfolding check_todo
check_todos merge current [] = ok []
check_todos merge current (x ∷ xs) =
    let rest = check_todos merge current xs in
    elim (check_todo merge current x) [ raised e ↦ raised e | ok t ↦ cons t rest ]

-- The plan that the execution holds: nothing, a value of another form, or tasks.
abbrev pub Saved : Type 0
Saved = Option (Option (List Task))

unfoldable pub merged_plan : Bool → List Task → Checked (List Task) → Checked (List Task)
unfolding merge_tasks
merged_plan merge current (raised e) = raised e
merged_plan merge current (ok todos) = elim (merge_tasks current todos merge) [
  | none ↦ raised two_in_progress
  | some plan ↦ ok plan
]

abbrev pub saved_plan : Saved → Checked (List Task) → Checked (List Task) × Saved
saved_plan saved (raised e) = (raised e, saved)
saved_plan saved (ok plan) = (ok plan, some (some plan))

-- The count of the tasks in progress is checked again behind the merge, where it holds.
unfoldable pub update_plan : Arguments → Saved → Checked (List Task) × Saved
unfolding check_todos get_task_list merged_plan
update_plan not_object saved = (raised not_an_object, saved)
update_plan (arguments merge []) saved = (raised no_todos, saved)
update_plan (arguments merge (x ∷ xs)) saved =
    let current = get_task_list saved in
    saved_plan saved (merged_plan merge current (check_todos merge current (x ∷ xs)))
