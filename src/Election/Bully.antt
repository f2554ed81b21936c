-- ===== src/Election/Bully.antt =====
-- internal/election/bully.go
pub mod Node
pub mod Checks
pub mod Starting
