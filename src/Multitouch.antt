-- ===== src/Multitouch.antt =====
-- The multitouch protocol: src/multitouch and include/halo_keyboard/multitouch.
pub mod EventKey
pub mod Slot
pub mod StateMachine
pub mod Validity
pub mod Frames
pub mod Snapshots
mod Examples
