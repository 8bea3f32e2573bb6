-- ===== src/Maintenance.antt =====
-- src/maintenance: the jobs that run every minute in one process at a time.
pub mod Lock
pub mod Runner
mod Tests
