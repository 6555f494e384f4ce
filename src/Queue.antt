-- ===== src/Queue.antt =====
-- internal/queue: the print queue, its workers and the memory of finished jobs.
pub mod Dedup
pub mod Worker
pub mod Submit
