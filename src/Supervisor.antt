-- ===== src/Supervisor.antt =====
-- src/supervisor.rs: the lifecycle of the one llama-server child.
pub mod State
pub mod Sections
pub mod Lifecycle
pub mod Metrics
pub mod Health
pub mod Stops
pub mod Run
pub mod Restarts
pub mod CrashLoop
pub mod Undone
pub mod Tasks
