-- ===== src/Task.antt =====
-- src/task of the daemon: the data that a task, its events and its permission requests consist of.
pub mod Model
pub mod State
pub mod Event
pub mod Permission
pub mod Stream
