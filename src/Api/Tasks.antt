-- ===== src/Api/Tasks.antt =====
-- api/tasks.rs: the handlers of tasks, after their extractors, and the statuses of their errors. A
-- handler takes the context of the product that its token belongs to.
pub mod Isolation
pub mod Resuming
pub mod Responses
use Prim.Native.String.{compare}
use text.Mathlib.Text.{is_lt}
use opendaemon.Prelude.{
  ℕ, String, Bool, true, false, List, Option, none, some, str_eq, if◌then◌else◌, Result, ok, err,
  unwrap_or,
}
use opendaemon.Json.{Value, Fields, object, bool, field, end, empty_object}
use opendaemon.Product.{ApiScope, tasks_read, tasks_create, tasks_cancel, tasks_remote_execution}
use opendaemon.Registry.{ProviderRegistry, ProviderEntry, IntegrationType}
use opendaemon.Registry
use opendaemon.Task.Model.{Task, CreateTask, is_terminal}
use opendaemon.Task.Event.{TaskEvent, PermissionDecision, approve, deny}
use opendaemon.Task.Stream.{Signal, TaskStreamFrame, stream}
use opendaemon.Store.Rows.{TaskFilters}
use opendaemon.Store.Exec.{Exec, pure, raise, lift, ◌>>=◌, ◌>>◌, map_err}
use opendaemon.Store.Tasks
use opendaemon.Store.Tasks.{TaskStoreError}
use opendaemon.Scheduler.Errors.{TaskValidationError, from_store_error}
use opendaemon.Scheduler.Service.{enqueue_task, cancel_task}
use opendaemon.Auth
use opendaemon.Auth.{ProductAuthContext, AuthError, require_scope, ensure_product}
use opendaemon.Api.Events.{TaskEventServiceError, parse_cursor, resolve_permission_response}

pub data ApiError : Type 0 where
  auth : AuthError → ApiError
  task : TaskValidationError → ApiError
  task_events : TaskEventServiceError → ApiError
  task_registry : ApiError

abbrev pub Op : Type 0 → Type 0
Op = Exec ApiError

abbrev pub from_store : TaskStoreError → ApiError
from_store e = task (from_store_error e)

-- `auth.require_scope(…)?` and `auth.ensure_product(…)?`
unfoldable pub scope : ProductAuthContext → ApiScope → Op (Unit {0})
scope c s = map_err auth (lift (require_scope c s))

unfoldable pub own : ProductAuthContext → String → Op (Unit {0})
own c product_id = map_err auth (lift (ensure_product c product_id))

unfoldable pub own_if : ProductAuthContext → Option String → Op (Unit {0})
unfolding own pure
own_if c none = pure tt
own_if c (some product_id) = own c product_id

abbrev pub filters_of : ProductAuthContext → TaskFilters → TaskFilters
filters_of c query = record query { owner_product_id = some c.product_id }

unfoldable pub list : ProductAuthContext → TaskFilters → Op (List Task)
list c query = do
  scope c tasks_read
  own_if c query.owner_product_id
  map_err from_store (Tasks.list (filters_of c query))

-- `Map::insert`: the entries are in the order of their keys
abbrev pub insert_field : String → Value → Fields → Fields
insert_field k v end = field k v end
insert_field k v (field j u fs) =
    let rest = insert_field k v fs in
    if str_eq j k
    then field k v fs
    else if is_lt (compare k j)
    then field k v (field j u fs)
    else field j u rest

abbrev pub approved : Value → Value
approved (object fs) =
    object (insert_field "remote_execution" (object (field "approved_by_scope" (bool true) end)) fs)
approved v = v

unfoldable pub mark_remote_execution_approved : CreateTask → CreateTask
mark_remote_execution_approved request = record request {
  metadata = some (approved (unwrap_or empty_object request.metadata));
}

abbrev pub is_http : Option ProviderEntry → Bool
is_http none = false
is_http (some e) = elim e.manifest.integration_type [
  | IntegrationType.cli ↦ false
  | IntegrationType.acp ↦ false
  | IntegrationType.http ↦ true
  | IntegrationType.native ↦ false
]

-- the registry is loaded only where the request names a provider
unfoldable pub requests_remote_execution :
    Result ProviderRegistry (List String) → Option String → Result Bool ApiError
requests_remote_execution registry none = ok false
requests_remote_execution (err e) (some id) = err task_registry
requests_remote_execution (ok r) (some id) = ok (is_http (Registry.get r id))

unfoldable pub approve_remote : ProductAuthContext → Bool → CreateTask → Op CreateTask
unfolding scope mark_remote_execution_approved pure ◌>>=◌
approve_remote c false request = pure request
approve_remote c true request = do
  scope c tasks_remote_execution
  pure (mark_remote_execution_approved request)

unfoldable pub create :
    Result ProviderRegistry (List String) → ProductAuthContext → CreateTask → Op Task
create registry c request = do
  scope c tasks_create
  own c request.owner_product_id
  remote ← lift (requests_remote_execution registry request.provider_id)
  input ← approve_remote c remote request
  map_err task (enqueue_task input)

unfoldable pub get : ProductAuthContext → String → Op Task
get c id = do
  t ← map_err from_store (Tasks.get id)
  scope c tasks_read
  own c t.owner_product_id
  pure t

unfoldable pub cancel : ProductAuthContext → String → Op Task
cancel c id = do
  scope c tasks_cancel
  current ← map_err from_store (Tasks.get id)
  own c current.owner_product_id
  map_err task (cancel_task id)

-- `TaskEventService::stream`: what is sent, by what the bus delivers
unfoldable pub open_stream : String → ℕ → Op (List Signal → List TaskStreamFrame)
open_stream id cursor = do
  t ← map_err (λ e. task_events (TaskEventServiceError.task e)) (Tasks.get id)
  replay ←
      map_err (λ e. task_events (TaskEventServiceError.task e)) (Tasks.list_events_after id cursor)
  pure (stream id cursor (is_terminal t.status) replay)

unfoldable pub events :
    ProductAuthContext
    → String
    → Option String
    → Option String
    → Op (List Signal → List TaskStreamFrame)
events c id cursor last_event_id = do
  scope c tasks_read
  t ← map_err from_store (Tasks.get id)
  own c t.owner_product_id
  at ← map_err task_events (lift (parse_cursor cursor last_event_id))
  open_stream id at

pub record TaskEventRequest : Type 0 where
  pub event_type : String
  pub request_id : String
  pub decision : String
  pub reason : Option String

pub record TaskPermissionResponse : Type 0 where
  pub task_id : String
  pub request_id : String
  pub status : String
  pub decision : PermissionDecision

unfoldable pub parse_decision : TaskEventRequest → Result PermissionDecision TaskEventServiceError
parse_decision request =
    if str_eq request.event_type "provider.permission_response"
    then if str_eq request.decision "approve"
      then ok approve
      else if str_eq request.decision "deny"
      then ok deny
      else err TaskEventServiceError.invalid_permission_decision
    else err TaskEventServiceError.invalid_event_request

unfoldable pub post_event :
    ProductAuthContext → String → TaskEventRequest → Op TaskPermissionResponse
post_event c id request = do
  scope c tasks_read
  t ← map_err from_store (Tasks.get id)
  own c t.owner_product_id
  decision ← map_err task_events (lift (parse_decision request))
  resolution ← map_err task_events (
      resolve_permission_response id
        (record { request_id = request.request_id; decision = decision; reason = request.reason }))
  pure (record {
    task_id = id;
    request_id = resolution.request_id;
    status = "resolved";
    decision = resolution.decision;
  })
