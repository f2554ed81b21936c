-- ===== src/Election.antt =====
-- internal/election: three algorithms that elect a leader through the nodes collection.
pub mod Raft
pub mod Bully
pub mod Gossip
pub mod Factory
