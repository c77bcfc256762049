-- ===== src/Graph.antt =====
-- src/vocode/graph.py and the validation of Graph in src/vocode/models.py: the graph of a workflow.
pub mod Data
pub mod Validation
pub mod Runtime
mod Wired
mod Children
mod Tests
