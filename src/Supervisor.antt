-- ===== src/Supervisor.antt =====
-- main.cc: the two worker processes and their supervision.
pub mod Processes
pub mod Workers
pub mod Waiting
pub mod Reaping
pub mod Signals
pub mod Killing
pub mod Children
pub mod Typing
pub mod Showing
pub mod Main
mod Examples
mod KeyboardRun
mod KeyboardExamples
mod TouchpadExamples
