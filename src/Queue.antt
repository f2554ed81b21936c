-- ===== src/Queue.antt =====
-- internal/queue/redis.go: the client it uses, its methods, and what they do to the server's
-- data.
pub mod Server
pub mod Defs
pub mod Lengths
pub mod Delayed
pub mod Order
pub mod Refinement
pub mod Sharing
