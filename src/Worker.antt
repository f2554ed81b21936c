-- ===== src/Worker.antt =====
-- internal/worker/pool.go: workers that take jobs from the queue and settle them.
pub mod Pool
pub mod Balance
pub mod Draining
pub mod Processing
