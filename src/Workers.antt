-- ===== src/Workers.antt =====
-- The background workers: backend/app/workers.
pub mod Scheduler
pub mod Rounds
pub mod Passes
