-- ===== src/Jobs.antt =====
-- The job queue: app/jobs.
pub mod Run
pub mod Worker
