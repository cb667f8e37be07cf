-- ===== src/Worker.antt =====
-- The worker (pkg/worker): the container of a run.
pub mod Adapter
pub mod Docker
pub mod Bootstrap
pub mod Config
pub mod Paths
pub mod AgentConfig
pub mod Reconnect
pub mod Run
pub mod Runtimes
mod Tests
