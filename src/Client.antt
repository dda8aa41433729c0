-- ===== src/Client.antt =====
-- src/optisocks5/sync/client.py and src/optisocks5/aio/client.py: the clients over a transport.
pub mod Transport
pub mod Staged
pub mod Optimistic
pub mod Connect
