-- ===== src/Scheduler/Service.antt =====
-- scheduler/service.rs: admitting tasks, giving them their directory, and moving them through
-- their states. The proofs are below.
pub mod Admission
pub mod Waiting
pub mod Allocation
pub mod Retry
pub mod Preserves
pub mod Contract
pub mod Promises
pub mod Preparing
pub mod Invariants
use opendaemon.Prelude.{
  ℕ, String, Bool, true, false, not, ◌&&◌, ◌||◌, leb, List, [], ◌∷◌, Option, none, some, any,
  select, length, str_eq, unwrap_or, if◌then◌else◌, Result, ok, err,
}
use opendaemon.Json.{Value, empty_object, object, field, end, string, index, as_bool}
use opendaemon.Json
use opendaemon.Security.{
  DirectoryCapability, DirectoryGrant, WorkspaceMode, worktree, direct, is_direct,
  DirectoryAuthorizationRequest, has_mode, lacks_one,
}
use opendaemon.Agent.{AgentProfile}
use opendaemon.Task.Model
use opendaemon.Task.Model.{Task, TaskStatus, CreateTask, required_capabilities}
use opendaemon.Scheduler.Errors.{
  TaskValidationError, workspace_mode_not_allowed, provider_override_not_allowed,
  model_override_not_allowed, permission_mode_override_not_allowed, capability_not_allowed,
  task_already_terminal, map_model_error, map_agent_error, map_directory_error, from_store_error,
}
use opendaemon.Scheduler.Locks.{LockMode, LockRequest, LockDecision, mode_for_capabilities}
use opendaemon.Store.World.{World}
use opendaemon.Store.Exec.{Exec, pure, raise, lift, ◌>>=◌, ◌>>◌, map_err}
use opendaemon.Store.Rows.{TaskFilters}
use opendaemon.Store.Tasks
use opendaemon.Store.Locks
use opendaemon.Store.Grants
use opendaemon.Store.Profiles
use opendaemon.Store.Profiles.{overrides}

abbrev pub Op : Type 0 → Type 0
Op = Exec TaskValidationError

abbrev mode_error : WorkspaceMode → TaskValidationError
mode_error direct = TaskValidationError.direct_mode_not_allowed
mode_error worktree = workspace_mode_not_allowed

unfoldable pub select_workspace_mode :
    Option WorkspaceMode → DirectoryGrant → Bool → Result WorkspaceMode TaskValidationError
select_workspace_mode requested grant opt_in =
    let mode = unwrap_or grant.default_workspace_mode requested in
    if not (has_mode grant.workspace_modes mode)
    then err (mode_error mode)
    else if is_direct mode && grant.direct_mode_requires_explicit_task_opt_in && not opt_in
    then err TaskValidationError.direct_mode_not_allowed
    else ok mode

-- `map_override_error`, the error of its kind given
unfoldable pub map_override_error :
    Option String → String → TaskValidationError → Result (Unit {0}) TaskValidationError
map_override_error requested actual kind = if overrides requested actual then err kind else ok tt

-- `metadata["remote_execution"]["approved_by_scope"].as_bool()`, false without metadata
abbrev pub asks_remote : Option Value → Bool
asks_remote none = false
asks_remote (some metadata) =
    unwrap_or false (as_bool (index (index metadata "remote_execution") "approved_by_scope"))

abbrev pub request_of : CreateTask → WorkspaceMode → DirectoryAuthorizationRequest
unfolding required_capabilities
request_of input mode = record {
  product_id = input.owner_product_id;
  agent_id = input.agent_id;
  directory_id = input.directory_id;
  required_capabilities = required_capabilities input;
  requested_workspace_mode = mode;
  direct_mode_task_opt_in = input.direct_mode_task_opt_in;
  remote_execution = asks_remote input.metadata;
}

-- the task that is stored: the workspace mode and the profile's settings are filled in
abbrev pub filled : CreateTask → WorkspaceMode → AgentProfile → CreateTask
filled input mode profile = record input {
  workspace_mode = some mode;
  provider_id = some profile.provider_id;
  model = some profile.model;
  permission_mode = some profile.provider_config.permission_mode;
}

unfoldable pub unless : Bool → TaskValidationError → Op (Unit {0})
unfolding pure raise
unless true error = raise error
unless false error = pure tt

unfoldable pub enqueue_task : CreateTask → Op Task
enqueue_task input = do
  map_err map_model_error (lift (Model.validate input))
  grant ← map_err map_directory_error (Grants.get input.directory_id)
  mode ← lift (select_workspace_mode input.workspace_mode grant input.direct_mode_task_opt_in)
  profile ← map_err map_agent_error (Profiles.get input.agent_id)
  unless (not (str_eq profile.owner_product_id input.owner_product_id))
      TaskValidationError.agent_authorization_failed
  lift (map_override_error input.provider_id profile.provider_id provider_override_not_allowed)
  lift (map_override_error input.model profile.model model_override_not_allowed)
  lift (
      map_override_error input.permission_mode profile.provider_config.permission_mode
        permission_mode_override_not_allowed)
  unless (is_direct mode && not profile.execution_policy.allow_direct_directory)
      TaskValidationError.direct_mode_not_allowed
  unless (lacks_one grant (required_capabilities input)) capability_not_allowed
  map_err map_directory_error (Grants.authorize (request_of input mode))
  map_err from_store_error (Tasks.create (filled input mode profile))

abbrev pub is_active : TaskStatus → Bool
is_active TaskStatus.preparing = true
is_active TaskStatus.running = true
is_active _ = false

abbrev pub no_filters : TaskFilters
no_filters = record { owner_product_id = none; agent_id = none; directory_id = none; status = none }

unfoldable pub running_or_preparing_count : Op ℕ
running_or_preparing_count = do
  tasks ← map_err from_store_error (Tasks.list no_filters)
  pure (length (select (λ (t : Task). is_active t.status) tasks))

-- a payload of one text
abbrev pub payload : String → String → Value
payload key text = object (field key (string text) end)

abbrev pub transition : String → TaskStatus → Option Value → Op Task
transition id next p = map_err from_store_error (Tasks.transition id next p)

-- the transition that follows a decision on the lock
unfoldable pub wait : String → String → LockDecision → Op LockDecision
wait id reason decision = do
  transition id TaskStatus.waiting_directory_lock (some (payload "reason" reason))
  pure decision

abbrev pub is_none_mode : LockMode → Bool
is_none_mode LockMode.none = true
is_none_mode _ = false

unfoldable pub report_lock : String → Bool → Op LockDecision
report_lock id true = wait id "directory_lock_acquired" LockDecision.acquired
report_lock id false = wait id "directory_lock" LockDecision.waiting

unfoldable pub lock_in_mode : LockRequest → Task → LockMode → Op LockDecision
lock_in_mode request task mode = do
  acquired ← map_err from_store_error (Locks.acquire_lock (record request { mode = mode }))
  report_lock task.id acquired

unfoldable pub allocate : LockRequest → Task → DirectoryGrant → Op LockDecision
unfolding pure
allocate request task grant =
    let mode = mode_for_capabilities task.required_capabilities grant.lock_policy in
    if is_none_mode mode then pure LockDecision.not_required else lock_in_mode request task mode

unfoldable pub allocate_below_capacity : Bool → LockRequest → Task → Op LockDecision
allocate_below_capacity true request task = wait task.id "global_capacity" LockDecision.waiting
allocate_below_capacity false request task = do
  grant ← map_err map_directory_error (Grants.get request.directory_id)
  allocate request task grant

-- `max` is `config.max_concurrent_tasks`
unfoldable pub try_acquire_directory_lock : ℕ → LockRequest → Op LockDecision
try_acquire_directory_lock max request = do
  task ← map_err from_store_error (Tasks.get request.task_id)
  count ← running_or_preparing_count
  allocate_below_capacity (leb max count) request task

unfoldable pub mark_preparing : String → Op Task
mark_preparing id = transition id TaskStatus.preparing none

unfoldable pub mark_running : String → Op Task
mark_running id = transition id TaskStatus.running none

unfoldable pub complete_task : String → String → Op Task
complete_task id final_message = do
  task ← transition id TaskStatus.completed none
  map_err from_store_error (Tasks.save_result id final_message [])
  pure task

unfoldable pub fail_task : String → String → Op Task
fail_task id error = transition id TaskStatus.failed (some (payload "error" error))

-- `cancel_task` refuses a task that ended otherwise
abbrev pub is_ended : TaskStatus → Bool
is_ended TaskStatus.completed = true
is_ended TaskStatus.failed = true
is_ended TaskStatus.timed_out = true
is_ended _ = false

unfoldable pub cancel_task : String → Op Task
cancel_task id = do
  task ← map_err from_store_error (Tasks.get id)
  unless (is_ended task.status) task_already_terminal
  map_err from_store_error (Tasks.cancel id)

unfoldable pub release_locks : String → Op (Unit {0})
release_locks id = map_err from_store_error (Locks.release_locks id)

abbrev pub is_waiting : TaskStatus → Bool
is_waiting TaskStatus.waiting_directory_lock = true
is_waiting _ = false

unfoldable pub mark_preparing_if : Bool → String → Op (Unit {0})
mark_preparing_if true id = do mark_preparing id; pure tt
mark_preparing_if false id = pure tt

-- `WorkspacePreparer::prepare`, and what it returns
abbrev pub Preparer : Type 0 → Type 0 → Type 0
Preparer Workspace Error = String → DirectoryGrant → WorkspaceMode → Result Workspace Error

unfoldable pub prepared :
    {Workspace Error : Type 0} → String → Result Workspace Error → Op Workspace
prepared id (ok workspace) = pure workspace
prepared id (err _) = do
  fail_task id "workspace preparation failed"
  raise workspace_mode_not_allowed

unfoldable pub prepare_workspace :
    {Workspace Error : Type 0} → String → Preparer Workspace Error → Op Workspace
prepare_workspace id prepare = do
  task ← map_err from_store_error (Tasks.get id)
  grant ← map_err map_directory_error (Grants.get task.directory_id)
  mark_preparing_if (is_waiting task.status) id
  prepared id (prepare task.id grant task.workspace_mode)
