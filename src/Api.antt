-- ===== src/Api.antt =====
-- What the HTTP API calls for tasks: Events is task/service.rs beside its stream, Tasks is
-- api/tasks.rs.
pub mod Events
pub mod Tasks
