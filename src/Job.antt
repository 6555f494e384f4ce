-- ===== src/Job.antt =====
-- internal/job: the print job and its life cycle.
pub mod State
pub mod Validation
