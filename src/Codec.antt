-- ===== src/Codec.antt =====
-- csrc/socks5_codec.cpp and csrc/module.cpp: the byte builders and parsers, and their binding.
pub mod Platform
pub mod Address
pub mod Messages
pub mod Binding
