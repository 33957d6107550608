-- ===== src/Examples.antt =====
-- A small daemon: one product with a grant and a profile, one task that runs, one that has ended,
-- and what the theorems say of it.
mod Security
mod Tasks
mod Steps
mod Scheduling
mod Streams
mod Providers
mod Clients
mod Writing
mod Running
mod Requests
use opendaemon.Prelude.{ℕ, String, Bool, true, false, List, [], ◌∷◌, Option, some, none}
use opendaemon.Json.{empty_object}
use opendaemon.Security.{DirectoryGrant, WorkspaceMode, worktree, read, write, DirectoryLockPolicy}
use opendaemon.Agent
use opendaemon.Product.{Product, ProductStatus, ProductTokenRow, tasks_read}
use opendaemon.Agent.{AgentProfile}
use opendaemon.Task.Model.{Task, TaskStatus, CreateTask}
use opendaemon.Task.Event.{
  TaskEvent, TaskEventType, PermissionRequestEvent, PermissionDecision, PermissionDecisionEvent,
}
use opendaemon.Task.Permission.{PermissionRequestRecord, approved}
use opendaemon.Scheduler.Locks.{DirectoryLock, LockMode, LockRequest, held}
use opendaemon.Store.World.{World, Db}

abbrev pub a_grant : DirectoryGrant
a_grant = record {
  id = "dir_1";
  product_id = "product";
  agent_id = "agent";
  path = "/work";
  capabilities = read ∷ write ∷ [];
  workspace_modes = worktree ∷ [];
  default_workspace_mode = worktree;
  lock_policy = DirectoryLockPolicy.exclusive;
  direct_mode_requires_explicit_task_opt_in = true;
  allow_remote_execution = false;
  created_at = "t0";
  updated_at = "t0";
}

abbrev pub a_profile : AgentProfile
a_profile = record {
  id = "agent";
  name = "Agent";
  owner_product_id = "product";
  provider_id = "codex";
  model = "small";
  instructions = none;
  execution_policy = record {
    default_workspace_mode = Agent.WorkspaceMode.worktree;
    allow_direct_directory = false;
  };
  provider_config = record {
    custom_args = [];
    custom_env_keys = [];
    mcp_config = none;
    permission_mode = "provider_default";
  };
  created_at = "t0";
  updated_at = "t0";
}

abbrev pub a_request : CreateTask
a_request = record {
  owner_product_id = "product";
  agent_id = "agent";
  directory_id = "dir_1";
  required_capabilities = some (read ∷ []);
  workspace_mode = none;
  direct_mode_task_opt_in = false;
  prompt = "tidy up";
  metadata = none;
  provider_id = none;
  model = none;
  permission_mode = none;
  timeout_seconds = some 60;
}

abbrev pub a_task : String → TaskStatus → Task
a_task id status = record {
  id = id;
  owner_product_id = "product";
  agent_id = "agent";
  directory_id = "dir_1";
  status = status;
  required_capabilities = read ∷ write ∷ [];
  workspace_mode = worktree;
  direct_mode_task_opt_in = false;
  prompt = "tidy up";
  metadata = none;
  provider_id = "codex";
  model = "small";
  permission_mode = "provider_default";
  timeout_seconds = some 60;
  result = none;
  created_at = "t0";
  updated_at = "t0";
  started_at = none;
  completed_at = none;
  cancelled_at = none;
  failed_at = none;
}

abbrev pub a_lock : String → DirectoryLock
a_lock id = record {
  directory_id = "dir_1";
  task_id = id;
  mode = LockMode.exclusive;
  status = held;
  created_at = "t0";
  released_at = none;
}

abbrev pub an_event : String → String → ℕ → TaskEventType → TaskEvent
an_event event_id id n event_type = record {
  id = event_id;
  task_id = id;
  sequence = n;
  event_type = event_type;
  payload = empty_object;
  created_at = "t0";
}

abbrev pub an_ask : PermissionRequestEvent
an_ask = record {
  request_id = "req_1";
  provider_id = "codex";
  permission_kind = "shell";
  summary = "run it";
  details = none;
  options = [];
  expires_at = none;
}

abbrev pub a_decided_request : PermissionRequestRecord
a_decided_request = record {
  request_id = "req_1";
  task_id = "task_1";
  sequence = 2;
  provider_id = "codex";
  permission_kind = "shell";
  status = approved;
  request = an_ask;
  response =
      some (record { request_id = "req_1"; decision = PermissionDecision.approve; reason = none });
  requested_at = "t0";
  responded_at = some "t0";
}

abbrev pub a_product : Product
a_product = record {
  id = "product";
  display_name = "Product";
  status = ProductStatus.active;
  description = none;
  created_at = "t0";
  updated_at = "t0";
}

abbrev pub a_token : ProductTokenRow
a_token = record {
  id = "ptok_1";
  product_id = "product";
  label = "first";
  scopes = tasks_read ∷ [];
  token_prefix = "odpk_ab12";
  token_digest_hex = "00";
  created_at = "t0";
  last_used_at = none;
  revoked_at = none;
}

abbrev pub a_db : Db
a_db = record {
  tasks =
      a_task "task_1" TaskStatus.running
      ∷ a_task "task_2" TaskStatus.completed
      ∷ a_task "task_3" TaskStatus.waiting_directory_lock
      ∷ [];
  task_events =
      an_event "evt_task_1_1" "task_1" 1 TaskEventType.queued
      ∷ an_event "evt_task_1_2" "task_1" 2 TaskEventType.running
      ∷ [];
  task_permission_requests = a_decided_request ∷ [];
  directory_locks = a_lock "task_1" ∷ [];
  directory_grants = a_grant ∷ [];
  agent_profiles = a_profile ∷ [];
  products = a_product ∷ [];
  product_tokens = a_token ∷ [];
  daemon_state = [];
}

abbrev pub a_world : World
a_world = record {
  db = a_db;
  sent = [];
  waiters = [];
  event_bus = true;
  calls = 0;
  fails = λ n. false;
  stamp = λ n. "now";
}

abbrev pub a_lock_request : LockRequest
a_lock_request = record { directory_id = "dir_1"; task_id = "task_3"; mode = LockMode.exclusive }
