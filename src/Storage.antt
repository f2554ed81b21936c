-- ===== src/Storage.antt =====
-- internal/storage: jobs and node registrations in MongoDB.
pub mod Connecting
pub mod Jobs
pub mod Documents
pub mod Unique
pub mod Listing
pub mod Statistics
pub mod Nodes
pub mod Claim
