-- ===== src/Service.antt =====
-- The request handlers of src/main.py over the state of the process.
pub mod State
pub mod Cool
pub mod Webhook
pub mod Accounts
pub mod Approve
pub mod Reject
pub mod Lifecycle
pub mod Query
pub mod Probes
pub mod Recorded
mod Tests
