-- ===== src/Files.antt =====
-- The file tree: file_tree.js.
pub mod State
pub mod Click
pub mod Step
mod Examples
