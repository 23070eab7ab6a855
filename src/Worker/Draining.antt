-- ===== src/Worker/Draining.antt =====
-- The loop of internal/worker/worker.go over the Redis queue: how its polls empty the queue.
pub mod Totals
pub mod Families
pub mod Settling
pub mod Polls
pub mod Loops
