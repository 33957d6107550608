-- ===== src/Api/Tasks/Responses.antt =====
-- api/tasks.rs: the status, the code and the message that an error is answered with. The text of an
-- error of the store or of the registry is not modelled.
use opendaemon.Prelude.{ℕ, String}
use opendaemon.Store.Tasks
use opendaemon.Scheduler.Errors.{TaskValidationError, from_store_error}
use opendaemon.Auth
use opendaemon.Api.Events.{TaskEventServiceError}
use opendaemon.Api.Tasks.{ApiError}

pub record ErrorBody : Type 0 where
  pub status : ℕ
  pub code : String
  pub message : String

abbrev pub body : ℕ → String → String → ErrorBody
body status code message = record { status = status; code = code; message = message }

unfoldable pub task_error_response : TaskValidationError → ErrorBody
task_error_response TaskValidationError.task_not_found = body 404 "task_not_found" "task not found"
task_error_response TaskValidationError.invalid_task = body 400 "invalid_task" "invalid task"
task_error_response TaskValidationError.invalid_task_prompt =
    body 400 "invalid_task_prompt" "invalid task prompt"
task_error_response TaskValidationError.invalid_task_state =
    body 400 "invalid_task_state" "invalid task state"
task_error_response TaskValidationError.agent_not_found =
    body 404 "agent_not_found" "agent profile not found"
task_error_response TaskValidationError.directory_not_found =
    body 404 "directory_not_found" "directory grant not found"
task_error_response TaskValidationError.agent_authorization_failed =
    body 403 "agent_authorization_failed" "agent authorization failed"
task_error_response TaskValidationError.directory_authorization_failed =
    body 403 "directory_authorization_failed" "directory authorization failed"
task_error_response TaskValidationError.capability_not_allowed =
    body 403 "capability_not_allowed" "capability not allowed"
task_error_response TaskValidationError.workspace_mode_not_allowed =
    body 403 "workspace_mode_not_allowed" "workspace mode not allowed"
task_error_response TaskValidationError.direct_mode_not_allowed =
    body 403 "direct_mode_not_allowed" "direct mode not allowed"
task_error_response TaskValidationError.provider_override_not_allowed =
    body 400 "provider_override_not_allowed" "provider override not allowed"
task_error_response TaskValidationError.model_override_not_allowed =
    body 400 "model_override_not_allowed" "model override not allowed"
task_error_response TaskValidationError.permission_mode_override_not_allowed =
    body 400 "permission_mode_override_not_allowed" "permission mode override not allowed"
task_error_response TaskValidationError.remote_execution_not_allowed =
    body 403 "remote_execution_not_allowed" "remote execution not allowed"
task_error_response TaskValidationError.directory_lock_conflict =
    body 409 "directory_lock_conflict" "directory lock conflict"
task_error_response TaskValidationError.task_already_terminal =
    body 409 "task_already_terminal" "task is already terminal"
task_error_response TaskValidationError.store = body 500 "store_error" ""

unfoldable pub task_event_error_response : TaskEventServiceError → ErrorBody
unfolding task_error_response
task_event_error_response TaskEventServiceError.invalid_cursor =
    body 400 "invalid_event_cursor" "invalid event cursor"
task_event_error_response TaskEventServiceError.invalid_event_request =
    body 400 "invalid_event_request" "invalid event request"
task_event_error_response TaskEventServiceError.invalid_permission_decision =
    body 400 "invalid_permission_decision" "invalid permission decision"
task_event_error_response TaskEventServiceError.permission_response_not_supported =
    body 409 "permission_response_not_supported" "permission response not supported"
task_event_error_response TaskEventServiceError.store_payload = body 500 "store_error" ""
task_event_error_response (TaskEventServiceError.task Tasks.permission_request_not_found) =
    body 404 "permission_request_not_found" "permission request not found"
task_event_error_response (TaskEventServiceError.task Tasks.permission_request_not_pending) =
    body 409 "permission_request_not_pending" "permission request not pending"
task_event_error_response (TaskEventServiceError.task Tasks.permission_request_already_resolved) =
    body 409 "permission_request_already_resolved" "permission request already resolved"
task_event_error_response (TaskEventServiceError.task e) = task_error_response (from_store_error e)

-- `ApiError::into_response`
unfoldable pub into_response : ApiError → ErrorBody
into_response (ApiError.auth e) = body (Auth.status e) (Auth.code e) (Auth.message e)
into_response (ApiError.task e) = task_error_response e
into_response (ApiError.task_events e) = task_event_error_response e
into_response ApiError.task_registry = body 500 "registry_error" ""
