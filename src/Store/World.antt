-- ===== src/Store/World.antt =====
-- The state that the stores share: the SQLite tables of store/sqlite.rs, the event bus of
-- task/service.rs, and what the environment decides. A table is the list of its rows in the order
-- of their rowids; a column that holds JSON text holds the value itself.
use opendaemon.Prelude.{ℕ, String, Bool, List}
use opendaemon.Task.Model.{Task}
use opendaemon.Task.Event.{TaskEvent}
use opendaemon.Task.Permission.{PermissionRequestRecord}
use opendaemon.Security.{DirectoryGrant}
use opendaemon.Agent.{AgentProfile}
use opendaemon.Scheduler.Locks.{DirectoryLock}
use opendaemon.Product.{Product, ProductTokenRow}
use opendaemon.ControlPlane.{DaemonStateRow}

pub record Db : Type 0 where
  pub tasks : List Task
  pub task_events : List TaskEvent
  pub task_permission_requests : List PermissionRequestRecord
  pub directory_locks : List DirectoryLock
  pub directory_grants : List DirectoryGrant
  pub agent_profiles : List AgentProfile
  pub products : List Product
  pub product_tokens : List ProductTokenRow
  pub daemon_state : List DaemonStateRow

pub record World : Type 0 where
  pub db : Db
  -- the events sent on the bus so far, and the tasks and requests that have a waiter on it
  pub sent : List TaskEvent
  pub waiters : List (String × String)
  -- whether the task store was given the bus (`with_event_bus`)
  pub event_bus : Bool
  -- The environment: which calls of the database engine or the clock fail, and what the clock
  -- reads, by the number of the call.
  pub calls : ℕ
  pub fails : ℕ → Bool
  pub stamp : ℕ → String
