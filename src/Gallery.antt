-- ===== src/Gallery.antt =====
-- The photo gallery: admintasia_2.1/admintasia_updated_2.1/js/photo_gallery.js.
pub mod State
pub mod Index
pub mod Layout
pub mod Pager
pub mod Display
pub mod Slideshow
pub mod Preload
pub mod Step
pub mod Registry
pub mod Init
pub mod History
mod Examples
