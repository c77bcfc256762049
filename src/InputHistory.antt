-- ===== src/InputHistory.antt =====
-- src/vocode/tui/history.py: the texts that the user sent, and the way through them with the keys
-- and by search.
pub mod State
mod Entries
mod Valid
mod Calls
mod Walk
mod Search
mod Tests
