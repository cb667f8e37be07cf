-- ===== src/Worker/Run.antt =====
-- The life of a run in the worker (pkg/worker/worker.go: handleRunRequest, handleCancel).
pub mod Program
pub mod Commands
pub mod Handler
pub mod Container
pub mod Cancel
pub mod System
pub mod Budget
pub mod Once
pub mod Alone
pub mod Twice
pub mod Leak
pub mod Network
mod Tests
