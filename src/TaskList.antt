-- ===== src/TaskList.antt =====
-- src/vocode/runstate/tasklist.py and src/vocode/tools/update_plan_tool.py: the plan of tasks that a
-- model keeps while it works.
pub mod State
pub mod Tool
mod Merge
mod Saved
mod Tests
