-- ===== src/Haptics.antt =====
-- The two vibration motors: src/haptics and include/halo_keyboard/haptics.
pub mod Driver
pub mod Manager
pub mod Upload
pub mod Calls
pub mod Playing
mod Examples
