-- ===== src/Gateway.antt =====
-- The gateway server (pkg/server): its state, the control messages, the event streams, the runs, the
-- connections and the access checks.
pub mod Messages
pub mod State
pub mod Queue
pub mod Streams
pub mod Runs
pub mod Auth
pub mod Connect
pub mod Admin
pub mod Bounds
pub mod Reach
mod Tests
