-- ===== src/Server.antt =====
-- src/optisocks5/server: the session of one client and the drivers that run it.
pub mod Events
pub mod State
pub mod Decisions
pub mod Machine
pub mod Hooks
pub mod Driver
pub mod Relay
pub mod Listener
