-- ===== src/History.antt =====
-- src/vocode/history/manager.py: the tree of steps of a workflow run and its branches.
pub mod Results
pub mod Walk
pub mod Branches
pub mod Steps
pub mod Remove
pub mod Compose
pub mod Ends
mod Tests
