-- ===== src/Examples.antt =====
-- The programs of examples/, on top of the library.
pub mod Metered
pub mod Selector
pub mod Hello
pub mod Curl
pub mod Async
