-- ===== src/Queue/RedisQueue/Refinement.antt =====
-- The queue of internal/queue/redis.go on a Redis server keeps the promise of its lines.
pub mod Parts
pub mod Steps
pub mod Taking
pub mod Histories
pub mod Keeping
pub mod Unknown
