-- ===== src/Proxy.antt =====
-- src/proxy.rs: the reverse proxy in front of the worker.
pub mod Gate
pub mod Http
pub mod Headers
pub mod BuildTurn
pub mod Sse
pub mod App
pub mod Stream
pub mod Completion
pub mod Exclusion
pub mod Storekeeping
