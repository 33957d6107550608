-- ===== src/Scheduler/Execution.antt =====
-- scheduler/execution.rs: what becomes of a task when its runtime has finished. The types of the
-- outcome are those of runtime/adapter.rs. The proofs are below.
pub mod Outcome
pub mod Running
pub mod Start
use opendaemon.Prelude.{
  ℕ, String, Bool, true, false, ◌||◌, List, [], ◌∷◌, Option, none, some, str_eq, if◌then◌else◌,
  Result, ok, err,
}
use opendaemon.Json.{Value, object, field, end, string}
use opendaemon.Security.{WorkspaceMode}
use opendaemon.Task.Model.{Task, TaskStatus, TaskResult}
use opendaemon.Task.Event.{TaskEventType}
use opendaemon.Scheduler.Errors.{TaskValidationError, from_store_error}
use opendaemon.Store.World.{World}
use opendaemon.Store.Exec.{Exec, pure, ◌>>=◌, ◌>>◌, now_rfc3339, map_err}
use opendaemon.Store.Tasks
use opendaemon.Store.Tasks.{TaskStoreError}

pub data RuntimeExecutionStatus : Type 0 where
  completed failed cancelled timed_out : RuntimeExecutionStatus

abbrev pub task_status : RuntimeExecutionStatus → TaskStatus
task_status completed = TaskStatus.completed
task_status failed = TaskStatus.failed
task_status cancelled = TaskStatus.cancelled
task_status timed_out = TaskStatus.timed_out

pub record RuntimeOutputEvent : Type 0 where
  pub kind : TaskEventType
  pub payload : Value

pub record RuntimeAdapterError : Type 0 where
  pub code : String
  pub message : String

-- the exit code is its sign and its magnitude; nothing here reads it
pub record RuntimeExecutionOutcome : Type 0 where
  pub status : RuntimeExecutionStatus
  pub exit_code : Option (Bool × ℕ)
  pub final_message : String
  pub changed_files : List String
  pub diff : Option String
  pub session_id : Option String
  pub provider_result : Option Value
  pub usage : Option Value
  pub error : Option RuntimeAdapterError
  pub events : List RuntimeOutputEvent

-- `PreparedWorkspace` of scheduler/workspace.rs
pub record PreparedWorkspace : Type 0 where
  pub workspace_mode : WorkspaceMode
  pub working_directory : String
  pub source_directory_id : String
  pub worktree_path : Option String
  pub branch_name : Option String

pub data ExecutionError : Type 0 where
  runtime_unavailable registry store : ExecutionError
  adapter : RuntimeAdapterError → ExecutionError
  task : TaskValidationError → ExecutionError

abbrev pub Op : Type 0 → Type 0
Op = Exec ExecutionError

-- `map_err(TaskValidationError::from)?`
abbrev pub from_store : TaskStoreError → ExecutionError
from_store e = task (from_store_error e)

abbrev or_epoch : {E : Type 0} → Result String E → String
or_epoch (ok now) = now
or_epoch (err _) = "1970-01-01T00:00:00Z"

-- a clock that fails reads the epoch
unfoldable pub now_or_epoch : Op String
now_or_epoch w = let (r, w') = now_rfc3339 store w in (ok (or_epoch r), w')

abbrev pub error_text : RuntimeAdapterError → String
error_text e =
    if str_eq e.code "command_timeout" || str_eq e.code "command_cancelled"
    then e.code
    else e.message

abbrev pub result_error : Option RuntimeAdapterError → Option String
result_error none = none
result_error (some e) = some (error_text e)

abbrev pub result_from_outcome :
    Task → RuntimeExecutionOutcome → PreparedWorkspace → String → TaskResult
result_from_outcome t outcome workspace now = record {
  task_id = t.id;
  status = t.status;
  final_message = outcome.final_message;
  changed_files = outcome.changed_files;
  diff = outcome.diff;
  workspace_mode = t.workspace_mode;
  worktree_path = workspace.worktree_path;
  source_directory_id = t.directory_id;
  branch_name = workspace.branch_name;
  commit_hash = none;
  session_id = outcome.session_id;
  provider_result = outcome.provider_result;
  usage = outcome.usage;
  artifacts = [];
  error = result_error outcome.error;
  created_at = now;
  updated_at = now;
}

abbrev pub error_payload : Option RuntimeAdapterError → Option Value
error_payload none = none
error_payload (some e) =
    some (object (field "error" (string e.code) (field "message" (string e.message) end)))

unfoldable pub persist_events : String → List RuntimeOutputEvent → Op (Unit {0})
persist_events id [] = pure tt
persist_events id (e ∷ es) = do
  map_err from_store (Tasks.append_event id e.kind e.payload)
  persist_events id es

unfoldable pub save_outcome : String → RuntimeExecutionOutcome → PreparedWorkspace → Op Task
save_outcome id outcome workspace = do
  t ← map_err from_store (Tasks.get id)
  now ← now_or_epoch
  map_err from_store (Tasks.save_execution_result (result_from_outcome t outcome workspace now))
  map_err from_store (Tasks.get id)

unfoldable pub persist_outcome : String → RuntimeExecutionOutcome → PreparedWorkspace → Op Task
persist_outcome id outcome workspace = do
  persist_events id outcome.events
  map_err from_store
      (Tasks.transition id (task_status outcome.status) (error_payload outcome.error))
  save_outcome id outcome workspace
