-- ===== src/Core.antt =====
-- src/optisocks5/core: the protocol's enums, the parsed reply and the client's session.
pub mod Types
pub mod Session
