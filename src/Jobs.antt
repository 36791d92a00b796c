-- ===== src/Jobs.antt =====
-- internal/jobs: the background jobs. A handler is a call on the world.
pub mod Worker
pub mod Scheduler
