-- ===== src/Tests.antt =====
-- The theorems applied to concrete inputs.
pub mod Store
pub mod Sending
pub mod Planning
pub mod Retry
pub mod Jobs
pub mod Quota
pub mod Snapshots
pub mod Scan
pub mod Bridge
pub mod Receipts
pub mod Requotes
