-- ===== src/Editor.antt =====
-- src/vocode/tui/lib/components/text_editor.py: a text of lines with a cursor.
pub mod State
pub mod Valid
pub mod Moves
pub mod Edits
pub mod Words
pub mod Run
pub mod Text
mod Tests
