-- ===== src/ControlPlane/Client.antt =====
-- control_plane/client.rs: the messages of the control plane, the callbacks to it and the check of
-- task tokens. What serde_json makes of a text or a value is an argument; a callback is a record of
-- the entries of its JSON object.
pub mod Once
use opendaemon.Prelude.{
  ℕ, String, Bool, true, false, not, ◌&&◌, ◌||◌, ◌==◌, List, [], ◌∷◌, Option, none, some, any,
  str_eq, if◌then◌else◌, Result, ok, err, and_then, ok_or,
}
use opendaemon.Json.{Value, get, as_str}
use opendaemon.Task.Model.{Task, TaskStatus, TaskResult}
use opendaemon.Task.Event.{TaskEvent, TaskEventType}
use opendaemon.Store.World.{World}
use opendaemon.Store.Exec.{Exec, pure, raise, lift, ◌>>=◌, ◌>>◌, map_err}
use opendaemon.Store.Tasks
use opendaemon.Store.DaemonState
use opendaemon.Store.DaemonState.{DaemonStateStoreError}
use opendaemon.Scheduler.Errors.{from_store_error}
use opendaemon.ControlPlane.{
  RemoteDispatchTask, DaemonRegistrationRecord, DaemonConnectionStatus, evaluate,
}
use opendaemon.ControlPlane.Dispatch
use opendaemon.ControlPlane.Dispatch.{
  ControlPlaneDispatchError, ingest, cancel_remote_task, get_in, text_in,
}

pub data ControlPlaneClientError : Type 0 where
  invalid_message : ControlPlaneClientError
  dispatch : ControlPlaneDispatchError → ControlPlaneClientError
  store : DaemonStateStoreError → ControlPlaneClientError

pub data HandledControlPlaneMessage : Type 0 where
  ignored heartbeat_acknowledged : HandledControlPlaneMessage
  task_dispatched task_cancelled : Task → HandledControlPlaneMessage

abbrev pub Op : Type 0 → Type 0
Op = Exec ControlPlaneClientError

-- `envelope.get(key).and_then(Value::as_str).ok_or(InvalidMessage)`
abbrev pub text_of : Value → String → Result String ControlPlaneClientError
text_of v key = ok_or (text_in (get v key)) invalid_message

module _ (from_str : String → Option Value) (from_value : Value → Option RemoteDispatchTask) where
  abbrev pub dispatched_task : Option Value → Result RemoteDispatchTask ControlPlaneClientError
  dispatched_task none = err invalid_message
  dispatched_task (some v) = ok_or (from_value v) invalid_message

  unfoldable pub task_dispatch : Value → Op HandledControlPlaneMessage
  task_dispatch envelope = do
    task ← lift (dispatched_task (get envelope "task"))
    t ← map_err dispatch (ingest task)
    pure (task_dispatched t)

  unfoldable pub task_cancel : Value → Op HandledControlPlaneMessage
  task_cancel envelope = do
    id ← lift (text_of envelope "remote_task_id")
    t ← map_err dispatch (cancel_remote_task id)
    pure (task_cancelled t)

  -- `if let Ok(record) = get_current()`: without a record, nothing is marked
  unfoldable pub mark_if :
      String → Result DaemonRegistrationRecord DaemonStateStoreError → Op HandledControlPlaneMessage
  mark_if at (err e) = pure heartbeat_acknowledged
  mark_if at (ok r) = do
    map_err store (DaemonState.mark_heartbeat r.daemon_id at r.status)
    pure heartbeat_acknowledged

  unfoldable pub attempt_current : Op (Result DaemonRegistrationRecord DaemonStateStoreError)
  attempt_current w = let (r, w') = DaemonState.get_current w in (ok r, w')

  unfoldable pub heartbeat_ack : Value → Op HandledControlPlaneMessage
  unfolding attempt_current
  heartbeat_ack envelope = do
    at ← lift (text_of envelope "heartbeat_at")
    current ← attempt_current
    mark_if at current

  unfoldable pub handle_type : Value → String → Op HandledControlPlaneMessage
  unfolding task_dispatch task_cancel heartbeat_ack pure
  handle_type envelope message_type =
      if str_eq message_type "task_dispatch"
      then task_dispatch envelope
      else if str_eq message_type "task_cancel"
      then task_cancel envelope
      else if str_eq message_type "heartbeat_ack"
      then heartbeat_ack envelope
      else pure ignored

  -- `ControlPlaneMessageHandler::handle_text`
  unfoldable pub handle_text : String → Op HandledControlPlaneMessage
  handle_text payload = do
    envelope ← lift (ok_or (from_str payload) invalid_message)
    message_type ← lift (text_of envelope "type")
    handle_type envelope message_type

-- the `status` that `build_runtime_status_message` sends
unfoldable pub daemon_status :
    (String → Option ℕ) → ℕ → String → Option DaemonRegistrationRecord → DaemonConnectionStatus
daemon_status parse threshold now none = DaemonConnectionStatus.connecting
daemon_status parse threshold now (some r) =
    evaluate parse threshold r.last_heartbeat_at now r.status

-- an i64
pub data ℤ : Type 0 where
  pos negsuc : ℕ → ℤ

abbrev pub same_int : ℤ → ℤ → Bool
same_int (pos m) (pos n) = m == n
same_int (negsuc m) (negsuc n) = m == n
same_int (pos m) (negsuc n) = false
same_int (negsuc m) (pos n) = false

-- the keys that have been delivered: a task and a number
pub record DedupeKey : Type 0 where
  pub task_id : String
  pub sequence : ℤ

abbrev pub same_key : DedupeKey → DedupeKey → Bool
same_key a b = str_eq a.task_id b.task_id && same_int a.sequence b.sequence

pub record TaskCallback : Type 0 where
  pub event : String
  pub remote_task_id : String
  pub task_token : String
  pub task_id : String
  pub sequence : Option ℕ
  pub status : TaskStatus
  pub result : Option TaskResult
  pub error : Option Value

-- what a callback service answers, with what it has delivered after that
abbrev pub Answer : Type 0
Answer = Result (Option TaskCallback) ControlPlaneClientError × List DedupeKey

abbrev pub deliver : DedupeKey → TaskCallback → List DedupeKey → Answer
deliver key callback delivered =
    if any (same_key key) delivered
    then (ok none, delivered)
    else (ok (some callback), key ∷ delivered)

abbrev pub deliver_checked :
    Result String ControlPlaneClientError
    → Result String ControlPlaneClientError
    → DedupeKey
    → (String → String → TaskCallback)
    → List DedupeKey
    → Answer
deliver_checked (err e) token key callback delivered = (err e, delivered)
deliver_checked (ok id) (err e) key callback delivered = (err e, delivered)
deliver_checked (ok id) (ok token) key callback delivered =
    deliver key (callback id token) delivered

-- the part of both functions behind the name of the callback: a task without the entry
-- `control_plane` has no callbacks
abbrev pub callback_of :
    Option Value → DedupeKey → (String → String → TaskCallback) → List DedupeKey → Answer
callback_of none key callback delivered = (ok none, delivered)
callback_of (some control_plane) key callback delivered =
    deliver_checked (text_of control_plane "remote_task_id") (text_of control_plane "task_token")
      key callback delivered

unfoldable pub state_sequence : TaskStatus → ℤ
state_sequence TaskStatus.waiting_directory_lock = negsuc 0
state_sequence TaskStatus.running = negsuc 1
state_sequence _ = pos 0

abbrev pub state_event : TaskStatus → Option String
state_event TaskStatus.waiting_directory_lock = some "task.claimed"
state_event TaskStatus.running = some "task.started"
state_event _ = none

abbrev pub state_callback : Task → String → String → String → TaskCallback
state_callback t event id token = record {
  event = event;
  remote_task_id = id;
  task_token = token;
  task_id = t.id;
  sequence = none;
  status = t.status;
  result = none;
  error = none;
}

abbrev pub callback_for_state : Task → Option String → List DedupeKey → Answer
unfolding state_sequence
callback_for_state t none delivered = (ok none, delivered)
callback_for_state t (some event) delivered =
    callback_of (get_in t.metadata "control_plane")
      (record { task_id = t.id; sequence = state_sequence t.status }) (state_callback t event)
      delivered

-- `callback_for_task_state`
unfoldable pub callback_for_task_state : Task → List DedupeKey → Answer
unfolding callback_for_state
callback_for_task_state t delivered = callback_for_state t (state_event t.status) delivered

abbrev pub event_name : TaskEventType → Option String
event_name TaskEventType.completed = some "task.completed"
event_name TaskEventType.failed = some "task.failed"
event_name TaskEventType.cancelled = some "task.cancelled"
event_name TaskEventType.timed_out = some "task.timed_out"
event_name _ = none

abbrev pub event_callback : TaskEvent → Task → String → String → String → TaskCallback
event_callback e t name id token = record {
  event = name;
  remote_task_id = id;
  task_token = token;
  task_id = t.id;
  sequence = some e.sequence;
  status = t.status;
  result = t.result;
  error = get e.payload "error";
}

-- `callback_for_event` once the task has been read
abbrev pub callback_for_end : TaskEvent → Task → String → List DedupeKey → Answer
callback_for_end e t name delivered =
    callback_of (get_in t.metadata "control_plane")
      (record { task_id = t.id; sequence = pos e.sequence }) (event_callback e t name) delivered

abbrev pub kept : Answer → Op (Option TaskCallback × List DedupeKey)
kept (ok c, delivered) w = (ok (c, delivered), w)
kept (err e, delivered) w = (err e, w)

unfoldable pub callback_for_named :
    TaskEvent → Option String → List DedupeKey → Op (Option TaskCallback × List DedupeKey)
unfolding pure
callback_for_named e none delivered = pure (none, delivered)
callback_for_named e (some name) delivered = do
  t ← map_err (λ x. dispatch (Dispatch.task (from_store_error x))) (Tasks.get e.task_id)
  kept (callback_for_end e t name delivered)

unfoldable pub callback_for_event :
    TaskEvent → List DedupeKey → Op (Option TaskCallback × List DedupeKey)
unfolding callback_for_named
callback_for_event e delivered = callback_for_named e (event_name e.event_type) delivered

-- `ControlPlaneAuthError`
pub data ControlPlaneAuthError : Type 0 where
  control_plane_auth_failed control_plane_task_token_replay : ControlPlaneAuthError

unfoldable pub validate_daemon_token : String → String → Result (Unit {0}) ControlPlaneAuthError
validate_daemon_token daemon_token presented =
    if str_eq daemon_token presented then err control_plane_auth_failed else ok tt

abbrev pub expected : Option Value → String → Result String ControlPlaneAuthError
expected control_plane key = ok_or (text_in (get_in control_plane key)) control_plane_auth_failed

-- the callbacks that were used: a remote task and the callback's id
abbrev pub is_used : String → String → List (String × String) → Bool
is_used remote_task_id callback_id used =
    any (λ k. str_eq k.0 remote_task_id && str_eq k.1 callback_id) used

abbrev pub use_once :
    String → String → List (String × String) → Result (List (String × String)) ControlPlaneAuthError
use_once id callback_id used =
    if is_used id callback_id used
    then err control_plane_task_token_replay
    else ok ((id, callback_id) ∷ used)

-- `validate_task_callback`: the callbacks that have been used after it, or an error, which uses none
unfoldable pub validate_task_callback :
    String
    → String
    → Value
    → String
    → String
    → List (String × String)
    → Result (List (String × String)) ControlPlaneAuthError
unfolding validate_daemon_token
validate_task_callback remote_task_id presented metadata daemon_token callback_id used =
    and_then (validate_daemon_token daemon_token presented) λ _.
      and_then (expected (get metadata "control_plane") "remote_task_id") λ id.
        and_then (expected (get metadata "control_plane") "task_token") λ token.
          if not (str_eq id remote_task_id) || not (str_eq token presented)
          then err control_plane_auth_failed
          else use_once remote_task_id callback_id used
