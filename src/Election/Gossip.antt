-- ===== src/Election/Gossip.antt =====
-- internal/election/gossip.go
pub mod Table
pub mod Merging
pub mod Rounds
pub mod Electing
pub mod Running
