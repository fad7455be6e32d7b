-- ===== src/Client.antt =====
-- The package client and its package throttle.
mod Tests
pub mod Throttle
pub mod Url
pub mod Request
pub mod Build
pub mod Send
pub mod Exec
pub mod Fetch
