-- ===== src/Scheduler.antt =====
-- framework/src/scheduler: what a task is, and the two schedulers.
pub mod Embedded
pub mod Standalone
