-- ===== src/Store/Permissions.antt =====
-- store/tasks.rs: the permission requests of providers, and their decisions. The proofs are below.
pub mod Requests
pub mod Decisions
pub mod Answers
use opendaemon.Prelude.{
  ℕ, String, Bool, true, false, ◌&&◌, List, [], ◌∷◌, ◌++◌, Option, none, some, any, select, find,
  update_where, str_eq, if◌then◌else◌,
}
use opendaemon.Json
use opendaemon.Json.{Value}
use opendaemon.Task.Model.{Task}
use opendaemon.Task.Event.{
  TaskEvent, TaskEventType, PermissionDecision, PermissionDecisionEvent, PermissionRequestEvent,
  decision_eq, is_decided, decision_to_value, request_to_value,
}
use opendaemon.Task.Permission.{
  PermissionRequestRecord, PermissionRequestStatus, PermissionResolution, pending, approved, denied,
  from_decision,
}
use opendaemon.Store.World.{Db}
use opendaemon.Store.Exec.{
  pure, raise, ◌>>=◌, ◌>>◌, call, query, statement, constrained, now_rfc3339, transaction, required,
}
use opendaemon.Store.Rows.{of_task, is_none_or, next_sequence_of, order_by_sequence, task_by_id}
use opendaemon.Store.Tasks.{
  Op, TaskStoreError, store, permission_request_not_found, permission_request_already_resolved,
  connection, get, insert_event_tx, publish_stored,
}

abbrev pub is_request : String → String → PermissionRequestRecord → Bool
is_request task_id request_id r = str_eq r.task_id task_id && str_eq r.request_id request_id

-- `query_permission_request`
abbrev pub request_by_id : String → String → Db → Option PermissionRequestRecord
request_by_id task_id request_id db =
    find (is_request task_id request_id) db.task_permission_requests

abbrev names_request : String → Option Value → Bool
names_request request_id (some (Value.string s)) = str_eq s request_id
names_request request_id _ = false

abbrev pub decides : String → String → TaskEvent → Bool
decides task_id request_id e =
    of_task task_id e
    && is_decided e.event_type
    && names_request request_id (Json.get e.payload "request_id")

abbrev first : List TaskEvent → Option TaskEvent
first [] = none
first (e ∷ es) = some e

-- `query_permission_decision_event`
unfoldable pub decision_event : String → String → Db → Option TaskEvent
decision_event task_id request_id db =
    first (order_by_sequence (select (decides task_id request_id) db.task_events))

-- the primary key of task_permission_requests is the request's id
abbrev pub insert_request_row : PermissionRequestRecord → Db → Option Db
insert_request_row r db =
    if any (λ old. str_eq old.request_id r.request_id) db.task_permission_requests
    then none
    else some (record db { task_permission_requests = db.task_permission_requests ++ r ∷ [] })

abbrev pub new_request : String → ℕ → PermissionRequestEvent → String → PermissionRequestRecord
new_request task_id sequence request now = record {
  request_id = request.request_id;
  task_id = task_id;
  sequence = sequence;
  provider_id = request.provider_id;
  permission_kind = request.permission_kind;
  status = pending;
  request = request;
  response = none;
  requested_at = now;
  responded_at = none;
}

-- the transaction of `record_permission_request`, which returns the event's number
unfoldable pub insert_request : String → PermissionRequestEvent → String → Op ℕ
unfolding transaction query insert_event_tx constrained ◌>>=◌ call
insert_request task_id request now = transaction (do
  sequence ← query store (next_sequence_of task_id)
  insert_event_tx task_id sequence TaskEventType.provider_permission_requested
      (request_to_value request) now
  constrained store (insert_request_row (new_request task_id sequence request now))
  call store
  pure sequence)

unfoldable pub record_permission_request : String → PermissionRequestEvent → Op TaskEvent
record_permission_request task_id request = do
  get task_id
  now ← now_rfc3339 store
  connection
  call store
  sequence ← insert_request task_id request now
  publish_stored task_id sequence

unfoldable pub get_permission_request : String → String → Op PermissionRequestRecord
get_permission_request task_id request_id = do
  get task_id
  connection
  row ← query store (request_by_id task_id request_id)
  required permission_request_not_found row

-- `list_permission_requests`: the rows whose task is there and passes the filter, in rowid order
abbrev same_status : PermissionRequestStatus → PermissionRequestStatus → Bool
same_status pending pending = true
same_status approved approved = true
same_status denied denied = true
same_status _ _ = false

abbrev owned : Option String → Option Task → Bool
owned owner none = false
owned owner (some t) = is_none_or owner (λ o. str_eq t.owner_product_id o)

unfoldable pub requests_of :
    Option String → Option PermissionRequestStatus → Db → List PermissionRequestRecord
requests_of owner status db =
    select (λ r. owned owner (task_by_id r.task_id db) && is_none_or status (same_status r.status))
      db.task_permission_requests

unfoldable pub list_permission_requests :
    Option String → Option PermissionRequestStatus → Op (List PermissionRequestRecord)
list_permission_requests owner status = do connection; query store (requests_of owner status)

abbrev pub decision_of : String → PermissionDecision → Option String → PermissionDecisionEvent
decision_of request_id decision reason = record {
  request_id = request_id;
  decision = decision;
  reason = reason;
}

-- what the transaction of `resolve_permission_request` ends with: the decision that was made
-- before, or the number of the event that records a new one
pub data Verdict : Type 0 where
  duplicate : TaskEvent → Verdict
  recorded : ℕ → Verdict

abbrev pub respond :
    PermissionDecisionEvent → String → PermissionRequestRecord → PermissionRequestRecord
respond response now r = record r {
  status = from_decision response.decision;
  response = some response;
  responded_at = some now;
}

abbrev pub update_request : String → String → PermissionDecisionEvent → String → Db → Db
update_request task_id request_id response now db = record db {
  task_permission_requests =
      update_where (is_request task_id request_id) (respond response now)
        db.task_permission_requests;
}

-- a request that was decided before: the same decision again is answered from the record
unfoldable pub repeat_decision :
    String → String → PermissionDecision → Option PermissionDecisionEvent → Op Verdict
unfolding raise query required ◌>>=◌
repeat_decision task_id request_id decision none = raise store
repeat_decision task_id request_id decision (some response) =
    if decision_eq response.decision decision
    then (do
      row ← query store (decision_event task_id request_id)
      event ← required store row
      pure (duplicate event))
    else raise permission_request_already_resolved

unfoldable pub record_decision : String → PermissionDecisionEvent → String → Op Verdict
unfolding query insert_event_tx statement ◌>>=◌ call
record_decision task_id response now = do
  sequence ← query store (next_sequence_of task_id)
  insert_event_tx task_id sequence TaskEventType.provider_permission_decided
      (decision_to_value response) now
  statement store (update_request task_id response.request_id response now)
  call store
  pure (recorded sequence)

unfoldable pub decide_request :
    String
    → PermissionDecisionEvent
    → String
    → PermissionRequestRecord
    → PermissionRequestStatus
    → Op Verdict
unfolding repeat_decision record_decision
decide_request task_id response now request pending = record_decision task_id response now
decide_request task_id response now request _ =
    repeat_decision task_id response.request_id response.decision request.response

-- the transaction; a repeated decision returns without a commit, having written nothing
unfoldable pub resolve_rows : String → PermissionDecisionEvent → String → Op Verdict
unfolding transaction query required decide_request ◌>>=◌
resolve_rows task_id response now = transaction (do
  row ← query store (request_by_id task_id response.request_id)
  request ← required permission_request_not_found row
  decide_request task_id response now request request.status)

abbrev pub resolution : String → PermissionDecisionEvent → TaskEvent → Bool → PermissionResolution
resolution task_id response event duplicated = record {
  task_id = task_id;
  request_id = response.request_id;
  status = from_decision response.decision;
  decision = response.decision;
  event = event;
  duplicated = duplicated;
}

unfoldable pub finish_resolution :
    String → PermissionDecisionEvent → Verdict → Op PermissionResolution
finish_resolution task_id response (duplicate event) = pure (resolution task_id response event true)
finish_resolution task_id response (recorded sequence) = do
  event ← publish_stored task_id sequence
  pure (resolution task_id response event false)

unfoldable pub resolve_permission_request :
    String → String → PermissionDecision → Option String → Op PermissionResolution
resolve_permission_request task_id request_id decision reason = do
  get task_id
  now ← now_rfc3339 store
  connection
  call store
  verdict ← resolve_rows task_id (decision_of request_id decision reason) now
  finish_resolution task_id (decision_of request_id decision reason) verdict
