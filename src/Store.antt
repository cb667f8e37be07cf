-- ===== src/Store.antt =====
-- The store of the gateway: worker records, the token index and pairing requests.
pub mod Disk
pub mod Workers
pub mod Pairing
pub mod Search
pub mod Credentials
pub mod Lifecycle
pub mod Approval
pub mod Polling
pub mod Protocol
pub mod Registry
pub mod Listing
pub mod Faults
mod Tests
