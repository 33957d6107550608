-- ===== src/Lib.antt =====
-- A task daemon: products ask it to run coding agents in directories of a machine. A product owns
-- agent profiles and directory grants; a task names a profile and a grant, is admitted by the
-- scheduler, waits for its directory, is prepared and run by the adapter of its provider, and leaves
-- a numbered list of events, among them the permission requests of providers and the decisions on
-- them. A request carries a token of a product; a control plane may send tasks too.
--
-- The parts, and the files that model them:
-- - Task/Model, Task/Event, Task/Permission: the data of src/task/model.rs, event.rs, permission.rs
--   and result.rs, with `CreateTask::validate`. Task/State: `validate_transition` of
--   src/task/state.rs, and the diagram it implements as the relation `⟶`.
-- - Security: grants, policies and `authorize` of src/security/directory.rs; Security/Policy and
--   Security/Authorize hold the proofs. Security/PathGuard: src/security/path_guard.rs.
-- - Agent: the data of src/agent/profile.rs; Agent/Validate: its checks; Agent/Checks: what a profile
--   that passes them is.
-- - Registry: src/registry/manifest.rs and the lookup of src/registry/mod.rs. Registry/Validate:
--   src/registry/validate.rs. Registry/Load: `load_registry_from_dir`. Registry/Checks, Manifests
--   and Sorting hold the proofs.
-- - Runtime: the views of src/runtime/model.rs and their store, and `runtime_available` of
--   src/scheduler/execution.rs. Runtime/Template: src/runtime/template.rs;
--   Runtime/Template/Pairs and Rendering hold the proofs.
-- - Store/World: the tables of src/store/sqlite.rs, each the list of its rows in rowid order, a
--   JSON column holding the value itself; the events sent on the bus; and what the environment
--   decides, which call of the database engine or of the clock fails and what the clock reads.
--   Store/Exec: fallible operations on the world, and transactions, which roll the tables back
--   when their body fails. Store/Logic: rules for what an operation does to the tables, and
--   Store/Logic/Gives for what it answers where no call fails.
-- - Store/Rows, Store/Tasks, Store/Permissions, Store/Locks: the SQL statements and the operations
--   of src/store/tasks.rs, one function per method, composed as the methods are: each opens a
--   connection (one call), begins a transaction (one call) and commits it (one call).
-- - Store/Grants: `get`, `patch`, `delete` and `authorize` of src/store/directory_grants.rs;
--   Store/Grants/Creating: `create` and `list`. Store/Profiles: `get` and `authorize` of
--   src/store/agent_profiles.rs; Store/Profiles/Writing: the other operations. Store/Grants/Valid and
--   Store/Profiles/Valid are about any sequence of their calls, Store/Products/Revoked about one of
--   calls that concern tokens.
-- - Product: src/product/mod.rs. Store/Products and Store/Products/Tokens: src/store/products.rs.
--   Auth: src/api/auth.rs. Api/Events: src/task/service.rs but for its stream. Api/Tasks:
--   src/api/tasks.rs, its error responses in Api/Tasks/Responses, a
--   client that comes back in Api/Tasks/Resuming. Store/DaemonState: src/store/daemon_state.rs.
-- - ControlPlane: the data of src/control_plane, with src/control_plane/liveness.rs;
--   ControlPlane/Registration, Dispatch and Client: registration.rs, dispatch.rs and client.rs there.
-- - Store/Steps: the steps that the operations of src/store/tasks.rs make on the tables, as an
--   indexed data type, and what every step keeps. Store/Steps/Race is about two calls of
--   `acquire_lock` that interleave.
-- - Scheduler/Locks: src/scheduler/locks.rs. Scheduler/Errors and Scheduler/Service:
--   src/scheduler/service.rs, its error maps and its operations; Scheduler/Service/Admission,
--   Waiting, Allocation, Retry, Preserves, Promises, Preparing, Contract and Invariants hold the proofs.
-- - Scheduler/Execution: `persist_outcome` of src/scheduler/execution.rs, with the outcome types of
--   src/runtime/adapter.rs; Scheduler/Execution/Running: `execute_task` and `cancel_running_task`.
--   Task/Stream: the stream of src/task/service.rs as a function of the signals that its loop takes;
--   Task/Stream/Order holds the proofs.
-- - Prelude, Text and Json: shared lists, sets, results, texts and `serde_json::Value`.
-- - Examples: a small daemon, and the theorems applied to it.
--
-- How source and model correspond. Numbers are natural numbers; event numbers are i64 and row ids
-- u64 or i64 in the source, which no run of the daemon exhausts, and are not bounded here. The only
-- loop that is not over a list is that of a template, whose fuel is one more than the characters of
-- the template. An error of the engine carries no text. A statement that a key of the schema forbids
-- fails. Rows are never deleted from `tasks`, so that the row id of a new task is the number of rows;
-- that of a new grant is an argument. A call that panics has the error `panic`.
--
-- Arguments stand for what is not in the repository: the digest and the bytes of tokens (`Crypto`),
-- the file system (`FileSystem`, and the entries of the registry's directory with what the schema
-- and serde make of their manifests), the preparer of workspaces, the adapters, whose runs may change
-- the world, the reading of times and of messages.
--
-- Not modelled: the codec of rows (src/store/tasks/codec.rs), migrations and opening of the file; the
-- adapters of src/runtime, which start processes and speak to sockets; the loop over the web socket of
-- src/control_plane/client.rs; the other handlers of src/api; the texts of the store's errors; the rest of the configuration, the command line and the console. They are
-- I/O, or further parts on top of what is modelled here.
pub mod Prelude
pub mod Text
pub mod Json
pub mod Security
pub mod Task
pub mod Agent
pub mod Product
pub mod Registry
pub mod Runtime
pub mod ControlPlane
pub mod Scheduler
pub mod Store
pub mod Auth
pub mod Api
pub mod Examples
