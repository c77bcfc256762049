-- ===== src/Workflow.antt =====
-- src/vocode/state.py: the record of a workflow run, and reading it.
pub mod Data
pub mod Action
pub mod Access
