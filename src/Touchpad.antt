-- ===== src/Touchpad.antt =====
-- The virtual touchpad: fake_touchpad.h and fake_touchpad.cc.
pub mod Region
pub mod Sync
pub mod Kernel
pub mod Passing
pub mod Slots
pub mod Syncing
pub mod Buttons
pub mod Drawing
pub mod Reading
pub mod Plain
pub mod Showing
pub mod Layout
pub mod Geometry
pub mod Setup
pub mod Loop
pub mod Sessions
mod Examples
pub mod LayoutExamples
