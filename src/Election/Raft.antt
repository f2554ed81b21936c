-- ===== src/Election/Raft.antt =====
-- internal/election/raft.go
pub mod State
pub mod Checks
pub mod Roles
pub mod Rounds
pub mod Votes
pub mod Locking
pub mod Leadership
pub mod Running
pub mod Stale
