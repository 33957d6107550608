-- ===== src/Scheduler/Errors.antt =====
-- scheduler/service.rs: the errors of the scheduler, and what the stores' errors become.
use opendaemon.Security.{DirectorySecurityError}
use opendaemon.Agent.{AgentProfileError}
use opendaemon.Task.Model.{TaskModelError}
use opendaemon.Task.State.{TaskStateError}
use opendaemon.Store.Tasks.{TaskStoreError}
use opendaemon.Store.Grants.{DirectoryStoreError}
use opendaemon.Store.Profiles.{AgentStoreError}

pub data TaskValidationError : Type 0 where
  task_not_found invalid_task invalid_task_prompt invalid_task_state : TaskValidationError
  agent_not_found directory_not_found agent_authorization_failed : TaskValidationError
  directory_authorization_failed capability_not_allowed : TaskValidationError
  workspace_mode_not_allowed direct_mode_not_allowed : TaskValidationError
  provider_override_not_allowed model_override_not_allowed : TaskValidationError
  permission_mode_override_not_allowed remote_execution_not_allowed : TaskValidationError
  directory_lock_conflict task_already_terminal store : TaskValidationError

unfoldable pub map_model_error : TaskModelError → TaskValidationError
map_model_error TaskModelError.invalid_prompt = invalid_task_prompt
map_model_error TaskModelError.invalid_task = TaskValidationError.invalid_task

unfoldable pub map_agent_error : AgentStoreError → TaskValidationError
map_agent_error (AgentStoreError.profile AgentProfileError.agent_not_found) =
    TaskValidationError.agent_not_found
map_agent_error (AgentStoreError.profile _) = TaskValidationError.agent_authorization_failed
map_agent_error AgentStoreError.store = TaskValidationError.store

unfoldable pub map_directory_error : DirectoryStoreError → TaskValidationError
map_directory_error DirectoryStoreError.not_found = directory_not_found
map_directory_error (DirectoryStoreError.security DirectorySecurityError.direct_mode_not_allowed) =
    TaskValidationError.direct_mode_not_allowed
map_directory_error (DirectoryStoreError.security DirectorySecurityError.authorization_failed) =
    directory_authorization_failed
map_directory_error (DirectoryStoreError.security DirectorySecurityError.invalid_capability) =
    capability_not_allowed
map_directory_error (DirectoryStoreError.security _) = workspace_mode_not_allowed
map_directory_error (DirectoryStoreError.path _) = directory_authorization_failed
map_directory_error DirectoryStoreError.store = TaskValidationError.store

-- `From<TaskStoreError>`
unfoldable pub from_store_error : TaskStoreError → TaskValidationError
unfolding map_model_error
from_store_error TaskStoreError.not_found = task_not_found
from_store_error TaskStoreError.permission_request_not_found = invalid_task_state
from_store_error TaskStoreError.permission_request_not_pending = invalid_task_state
from_store_error TaskStoreError.permission_request_already_resolved = invalid_task_state
from_store_error (TaskStoreError.model error) = map_model_error error
from_store_error (TaskStoreError.state TaskStateError.already_terminal) = task_already_terminal
from_store_error (TaskStoreError.state _) = invalid_task_state
from_store_error TaskStoreError.store = TaskValidationError.store
