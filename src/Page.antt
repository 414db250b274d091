-- ===== src/Page.antt =====
-- The controls of every page: custom.js and sidebar_position.js.
pub mod State
pub mod Sidebar
pub mod Links
pub mod Restore
pub mod Step
pub mod Widgets
mod Examples
