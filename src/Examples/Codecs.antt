-- ===== src/Examples/Codecs.antt =====
-- A codec for all tasks, in place of JSON.
mod Values
pub mod Tasks
