-- ===== src/Selectable.antt =====
-- The lasso of ui/ui.selectable.js.
pub mod State
pub mod Element
pub mod Widget
pub mod Gesture
mod Examples
