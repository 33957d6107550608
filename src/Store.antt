-- ===== src/Store.antt =====
-- src/store of the daemon: the tables, and the operations on them.
pub mod World
pub mod Exec
pub mod Logic
pub mod Rows
pub mod Tasks
pub mod Permissions
pub mod Locks
pub mod Grants
pub mod Profiles
pub mod Products
pub mod DaemonState
pub mod Steps
