-- ===== src/Tests.antt =====
-- Runs of the model on concrete inputs.
pub mod Inet
pub mod Samples
pub mod Witnesses
pub mod Relaying
pub mod Running
pub mod Serving
pub mod Meeting
pub mod Scripts
