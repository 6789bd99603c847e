-- ===== src/Session.antt =====
-- canonical-web-server.rs/crates/canonical-session/src/lib.rs: web sessions, their refresh under a
-- lease, and the durable logout.
pub mod Model
pub mod Policy
pub mod Cipher
pub mod Refresh
pub mod Revocation
pub mod Create
pub mod Reconcile
pub mod Rows
pub mod Evolution
pub mod Steps
pub mod Batch
pub mod Reach
pub mod Fences
pub mod Logout
pub mod Delays
pub mod World
pub mod Flows
pub mod Coordinator
pub mod Coalescing
pub mod CoalescingTests
pub mod Refreshing
pub mod Polling
pub mod Bearer
pub mod Spending
pub mod Calls
pub mod Guarantee
pub mod Identity
pub mod Authenticating
pub mod Entering
pub mod Sweeping
pub mod Genuine
pub mod Interference
pub mod Durable
pub mod Attempts
pub mod Tests
