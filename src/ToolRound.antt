-- ===== src/ToolRound.antt =====
-- src/vocode/runner/tool_orchestrator.py: the calls of tools that a message of a model asks for.
pub mod State
pub mod Execute
mod Runs
mod Grouped
mod Tests
