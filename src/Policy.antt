-- ===== src/Policy.antt =====
-- The network policy: the allowlist of the proxy and its check in the worker.
pub mod Rules
pub mod Match
pub mod Agreement
pub mod Compiled
pub mod Names
pub mod Grants
pub mod Decision
pub mod Proxy
mod Tests
