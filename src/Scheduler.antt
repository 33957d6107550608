-- ===== src/Scheduler.antt =====
-- src/scheduler of the daemon: from a request to a finished task.
pub mod Locks
pub mod Errors
pub mod Service
pub mod Execution
