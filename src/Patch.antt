-- ===== src/Patch.antt =====
-- src/vocode/patch/v4a.py: the patches that a model writes. They are parsed, their blocks are
-- located in the files, and the changed files are written.
pub mod Data
pub mod Section
pub mod Line
pub mod Parse
pub mod Chunk
pub mod Blanks
pub mod Reverse
pub mod Find
pub mod Effective
pub mod Locate
pub mod Build
pub mod Apply
mod Bounds
mod Order
mod Fuel
mod Pushed
mod Printed
mod Report
mod Emit
pub mod Script
mod Leaves
mod Exact
mod Tests
