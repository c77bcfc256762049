-- ===== src/Select.antt =====
-- src/vocode/tui/lib/components/select_list.py: a list of items with a selection and the window of
-- five that is shown.
pub mod State
pub mod Valid
pub mod Run
mod Tests
