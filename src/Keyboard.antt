-- ===== src/Keyboard.antt =====
-- The virtual keyboard: fake_keyboard.h and fake_keyboard.cc.
pub mod Key
pub mod Time
pub mod Queue
pub mod State
pub mod Fingers
pub mod Consume
pub mod Deadlines
pub mod Ordering
pub mod Counts
pub mod Tracking
pub mod Preservation
pub mod Touches
pub mod Freshness
pub mod Balance
pub mod Soundness
pub mod Departures
pub mod Frames
pub mod Firing
pub mod Rounds
pub mod Runs
pub mod Loop
pub mod Progress
pub mod Layout
pub mod Layouts
pub mod Geometry
pub mod Setup
pub mod Codes
pub mod Coded
pub mod Sending
pub mod Typing
pub mod Sessions
mod Examples
pub mod LayoutExamples
