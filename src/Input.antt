-- ===== src/Input.antt =====
-- src/vocode/input_manager.py: queues of user messages, one for each type of input, and the tasks
-- that wait for them.
pub mod State
pub mod Types
pub mod Publish
pub mod Queue
pub mod Match
pub mod Delivery
pub mod Fifo
pub mod Waiting
pub mod Reset
mod Tests
