-- ===== src/Store/Tasks.antt =====
-- store/tasks.rs: creating, reading and moving tasks, and their events. The proofs are below.
pub mod Reading
pub mod Moves
pub mod Effects
pub mod Rows
use Prim.Native.String.{◌++◌ as concat}
use opendaemon.Prelude.{
  ◌==◌, ℕ, suc, ◌+◌, String, Bool, true, false, ◌&&◌, not, ltb, List, [], ◌∷◌, ◌++◌, Option, none,
  some, any, select, find, length, str_eq, unwrap_or, if◌then◌else◌, Result, ok, err,
}
use opendaemon.Text.Decimal.{show}
use opendaemon.Json.{Value, empty_object}
use opendaemon.Security.{WorkspaceMode}
use opendaemon.Task.Model
use opendaemon.Task.Model.{
  Task, TaskStatus, TaskResult, CreateTask, TaskModelError, is_terminal, status_eq,
  required_capabilities,
}
use opendaemon.Task.State.{TaskTransition, TaskStateError, changed, idempotent, validate_transition}
use opendaemon.Task.Event.{TaskEvent, TaskEventType}
use opendaemon.Store.World.{World, Db}
use opendaemon.Store.Exec.{
  Exec, pure, raise, ◌>>=◌, ◌>>◌, call, query, statement, constrained, now_rfc3339, transaction,
  required, map_err, lift,
}
use opendaemon.Store.Rows.{
  event_type_for_status, task_by_id, update_status, update_result, of_task, next_sequence_of,
  event_id, insert_event_row, release_held, insert_task_row, last_insert_rowid, task_id_of,
  set_last_id, TaskFilters, matches, events_after,
}

pub data TaskStoreError : Type 0 where
  not_found permission_request_not_found permission_request_not_pending : TaskStoreError
  permission_request_already_resolved : TaskStoreError
  model : TaskModelError → TaskStoreError
  state : TaskStateError → TaskStoreError
  store : TaskStoreError

abbrev pub Op : Type 0 → Type 0
Op = Exec TaskStoreError

abbrev pub connection : Op (Unit {0})
connection = call store

-- `get`: `query_one` on a new connection
unfoldable pub get : String → Op Task
get id = do connection; row ← query store (task_by_id id); required not_found row

-- `next_sequence`
unfoldable pub next_sequence : String → Op ℕ
next_sequence id = do connection; query store (next_sequence_of id)

-- `event_by_sequence`
unfoldable pub event_by_sequence : String → ℕ → Op TaskEvent
event_by_sequence id sequence = do
  row ← query store (λ db. find (λ e. of_task id e && e.sequence == sequence) db.task_events)
  required store row

abbrev pub new_event : String → ℕ → TaskEventType → Value → String → TaskEvent
new_event task_id sequence event_type payload now = record {
  id = event_id task_id sequence;
  task_id = task_id;
  sequence = sequence;
  event_type = event_type;
  payload = payload;
  created_at = now;
}

-- `insert_event_tx`
unfoldable pub insert_event_tx : String → ℕ → TaskEventType → Value → String → Op (Unit {0})
unfolding constrained
insert_event_tx task_id sequence event_type payload now =
    constrained store (insert_event_row (new_event task_id sequence event_type payload now))

-- `release_locks_tx`
unfoldable pub release_locks_tx : String → String → Op (Unit {0})
unfolding statement
release_locks_tx task_id now = statement store (release_held task_id now)

unfoldable pub publish_if_configured : TaskEvent → Op (Unit {0})
publish_if_configured event w =
    (ok tt, if w.event_bus then record w { sent = w.sent ++ event ∷ [] } else w)

-- reading the stored event back, and publishing it: the end of every operation that adds one
unfoldable pub announce : String → ℕ → Op TaskEvent
announce id sequence = do
  event ← event_by_sequence id sequence
  publish_if_configured event
  pure event

-- `self.publish_if_configured(self.event_by_sequence(&self.connection()?, id, sequence)?)`
unfoldable pub publish_stored : String → ℕ → Op TaskEvent
publish_stored id sequence = do connection; announce id sequence

-- the row that `create` inserts
unfoldable pub new_task : CreateTask → String → Task
unfolding required_capabilities
new_task input now = record {
  id = "";
  owner_product_id = input.owner_product_id;
  agent_id = input.agent_id;
  directory_id = input.directory_id;
  status = TaskStatus.queued;
  required_capabilities = required_capabilities input;
  workspace_mode = unwrap_or WorkspaceMode.worktree input.workspace_mode;
  direct_mode_task_opt_in = input.direct_mode_task_opt_in;
  prompt = input.prompt;
  metadata = input.metadata;
  provider_id = unwrap_or "" input.provider_id;
  model = unwrap_or "" input.model;
  permission_mode = unwrap_or "provider_default" input.permission_mode;
  timeout_seconds = input.timeout_seconds;
  result = none;
  created_at = now;
  updated_at = now;
  started_at = none;
  completed_at = none;
  cancelled_at = none;
  failed_at = none;
}

-- the transaction of `create`, which returns the new id
unfoldable pub insert_task : CreateTask → String → Op String
unfolding transaction constrained query insert_event_tx ◌>>=◌ call
insert_task input now = transaction (do
  constrained store (insert_task_row (new_task input now))
  row_id ← (λ w. (ok (last_insert_rowid w.db), w))
  constrained store (set_last_id (task_id_of row_id))
  insert_event_tx (task_id_of row_id) 1 TaskEventType.queued empty_object now
  call store
  pure (task_id_of row_id))

unfoldable pub create : CreateTask → Op Task
create input = do
  map_err model (lift (Model.validate input))
  now ← now_rfc3339 store
  connection
  call store
  id ← insert_task input now
  publish_stored id 1
  get id

-- `all`, and `list` over it
unfoldable pub list : TaskFilters → Op (List Task)
list filters = do
  connection
  tasks ← query store (λ db. db.tasks)
  pure (select (matches filters) tasks)

unfoldable pub release_if_terminal : Bool → String → String → Op (Unit {0})
unfolding pure
release_if_terminal true id now = release_locks_tx id now
release_if_terminal false id now = pure tt

-- the transaction of `transition`
unfoldable pub change_status : String → TaskStatus → Value → String → ℕ → Op (Unit {0})
unfolding transaction statement insert_event_tx release_locks_tx release_if_terminal ◌>>=◌ call
change_status id next payload now sequence = transaction (do
  statement store (update_status id next now)
  insert_event_tx id sequence (event_type_for_status next) payload now
  release_if_terminal (is_terminal next) id now
  call store)

unfoldable pub move_task : String → TaskStatus → Value → Op Task
move_task id next payload = do
  now ← now_rfc3339 store
  sequence ← next_sequence id
  connection
  call store
  change_status id next payload now sequence
  publish_stored id sequence
  get id

unfoldable pub follow : String → TaskStatus → Value → Task → TaskTransition → Op Task
follow id next payload current idempotent = pure current
follow id next payload current changed = move_task id next payload

unfoldable pub transition : String → TaskStatus → Option Value → Op Task
transition id next payload = do
  current ← get id
  verdict ← map_err state (lift (validate_transition current.status next))
  follow id next (unwrap_or empty_object payload) current verdict

unfoldable pub cancel : String → Op Task
cancel id = transition id TaskStatus.cancelled none

-- `save_execution_result`
unfoldable pub save_execution_result : TaskResult → Op (Unit {0})
save_execution_result result = do connection; statement store (update_result result.task_id result)

abbrev pub plain_result : Task → String → List String → String → TaskResult
plain_result task final_message changed_files now = record {
  task_id = task.id;
  status = task.status;
  final_message = final_message;
  changed_files = changed_files;
  diff = none;
  workspace_mode = task.workspace_mode;
  worktree_path = none;
  source_directory_id = task.directory_id;
  branch_name = none;
  commit_hash = none;
  session_id = none;
  provider_result = none;
  usage = none;
  artifacts = [];
  error = none;
  created_at = now;
  updated_at = now;
}

unfoldable pub save_result : String → String → List String → Op (Unit {0})
save_result id final_message changed_files = do
  task ← get id
  now ← now_rfc3339 store
  connection
  statement store (update_result id (plain_result task final_message changed_files now))

unfoldable pub append_event : String → TaskEventType → Value → Op TaskEvent
append_event task_id event_type payload = do
  get task_id
  now ← now_rfc3339 store
  sequence ← next_sequence task_id
  connection
  insert_event_tx task_id sequence event_type payload now
  announce task_id sequence

unfoldable pub list_events_after : String → ℕ → Op (List TaskEvent)
list_events_after task_id cursor = do connection; query store (events_after task_id cursor)

unfoldable pub list_events : String → Op (List TaskEvent)
list_events task_id = list_events_after task_id 0
