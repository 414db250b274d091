-- ===== src/Editable.antt =====
-- Editing in place: jeditable.js.
pub mod State
pub mod Settings
pub mod Types
pub mod Begin
pub mod Finish
pub mod Sound
pub mod Fields
pub mod Step
pub mod Spec
pub mod Group
mod Samples
mod Examples
