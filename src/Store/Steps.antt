-- ===== src/Store/Steps.antt =====
-- The steps that the operations of store/tasks.rs make on the tables, and what is reached by them.
-- The proofs that no operation does anything else, and what every step keeps, are below.
pub mod Operations
pub mod Walks
pub mod Lifecycle
pub mod Numbering
pub mod Resuming
pub mod Exclusion
pub mod Race
pub mod Decisions
use opendaemon.Prelude.{String, ◌≡◌}
use opendaemon.Json.{Value}
use opendaemon.Task.Model.{TaskStatus, TaskResult, CreateTask}
use opendaemon.Task.Event.{TaskEventType, PermissionDecisionEvent, PermissionRequestEvent}
use opendaemon.Scheduler.Locks.{LockRequest}
use opendaemon.Store.World.{Db}
use opendaemon.Store.Rows.{update_result}
use opendaemon.Store.Tasks.Moves.{Moved}
use opendaemon.Store.Tasks.Effects.{Created, Appended}
use opendaemon.Store.Permissions.Requests.{Requested}
use opendaemon.Store.Permissions.Answers.{Decided}
use opendaemon.Store.Locks.Effects.{Acquired, Released}

pub data Step (d d' : Db) : Type 0 where
  create : (input : CreateTask) → Created input d d' → Step d d'
  move :
      (id : String) (next : TaskStatus) (payload : Value) → Moved id next payload d d' → Step d d'
  append :
      (id : String) (event_type : TaskEventType) (payload : Value)
      → Appended id event_type payload d d'
      → Step d d'
  request : (id : String) (r : PermissionRequestEvent) → Requested id r d d' → Step d d'
  decide : (id : String) (response : PermissionDecisionEvent) → Decided id response d d' → Step d d'
  acquire : (r : LockRequest) → Acquired r d d' → Step d d'
  release : (id : String) → Released id d d' → Step d d'
  save : (id : String) (result : TaskResult) → d' ≡ update_result id result d → Step d d'

pub data Steps (d : Db) : Db → Type 0 where
  none : Steps d d
  more : {d' d'' : Db} → Steps d d' → Step d' d'' → Steps d d''
