-- ===== src/Menus.antt =====
-- The drop-down menus: superfish.js.
pub mod State
pub mod Indices
pub mod Create
pub mod Step
pub mod Mouse
mod Examples
