-- ===== src/Task/Model.antt =====
-- task/model.rs and task/result.rs
use opendaemon.Prelude.{
  ℕ, String, Bool, true, false, not, ◌||◌, ◌==◌, ltb, List, [], ◌∷◌, Option, none, some, unwrap_or,
  if◌then◌else◌, Result, ok, err, btree_set,
}
use opendaemon.Text.{is_blank}
use opendaemon.Json.{Value, is_object}
use opendaemon.Security.{DirectoryCapability, read, WorkspaceMode, capability_rank}

abbrev pub max_task_timeout_seconds : ℕ
max_task_timeout_seconds = 86400

pub data TaskStatus : Type 0 where
  queued waiting_directory_lock preparing running completed failed cancelled timed_out : TaskStatus

abbrev pub status_rank : TaskStatus → ℕ
status_rank queued = 0
status_rank waiting_directory_lock = 1
status_rank preparing = 2
status_rank running = 3
status_rank completed = 4
status_rank failed = 5
status_rank cancelled = 6
status_rank timed_out = 7

-- the derived `PartialEq`
abbrev pub status_eq : TaskStatus → TaskStatus → Bool
status_eq a b = status_rank a == status_rank b

abbrev pub is_terminal : TaskStatus → Bool
is_terminal completed = true
is_terminal failed = true
is_terminal cancelled = true
is_terminal timed_out = true
is_terminal _ = false

pub record TaskResult : Type 0 where
  pub task_id : String
  pub status : TaskStatus
  pub final_message : String
  pub changed_files : List String
  pub diff : Option String
  pub workspace_mode : WorkspaceMode
  pub worktree_path : Option String
  pub source_directory_id : String
  pub branch_name : Option String
  pub commit_hash : Option String
  pub session_id : Option String
  pub provider_result : Option Value
  pub usage : Option Value
  pub artifacts : List Value
  pub error : Option String
  pub created_at : String
  pub updated_at : String

pub record Task : Type 0 where
  pub id : String
  pub owner_product_id : String
  pub agent_id : String
  pub directory_id : String
  pub status : TaskStatus
  pub required_capabilities : List DirectoryCapability
  pub workspace_mode : WorkspaceMode
  pub direct_mode_task_opt_in : Bool
  pub prompt : String
  pub metadata : Option Value
  pub provider_id : String
  pub model : String
  pub permission_mode : String
  pub timeout_seconds : Option ℕ
  pub result : Option TaskResult
  pub created_at : String
  pub updated_at : String
  pub started_at : Option String
  pub completed_at : Option String
  pub cancelled_at : Option String
  pub failed_at : Option String

pub record CreateTask : Type 0 where
  pub owner_product_id : String
  pub agent_id : String
  pub directory_id : String
  pub prompt : String
  pub required_capabilities : Option (List DirectoryCapability)
  pub workspace_mode : Option WorkspaceMode
  pub direct_mode_task_opt_in : Bool
  pub metadata : Option Value
  pub provider_id : Option String
  pub model : Option String
  pub permission_mode : Option String
  pub timeout_seconds : Option ℕ

pub data TaskModelError : Type 0 where
  invalid_task invalid_prompt : TaskModelError

-- `CreateTask::required_capabilities`: read, where none are named
unfoldable pub required_capabilities : CreateTask → List DirectoryCapability
required_capabilities input =
    btree_set capability_rank (unwrap_or (read ∷ []) input.required_capabilities)

abbrev no_capability : List DirectoryCapability → Bool
no_capability [] = true
no_capability (_ ∷ _) = false

abbrev bad_metadata : Option Value → Bool
bad_metadata none = false
bad_metadata (some v) = not (is_object v)

abbrev bad_timeout : Option ℕ → Bool
bad_timeout none = false
bad_timeout (some timeout) = timeout == 0 || ltb max_task_timeout_seconds timeout

-- `CreateTask::validate`
unfoldable pub validate : CreateTask → Result (Unit {0}) TaskModelError
validate input =
    if is_blank input.owner_product_id || is_blank input.agent_id || is_blank input.directory_id
    then err invalid_task
    else if is_blank input.prompt
    then err invalid_prompt
    else if no_capability (required_capabilities input)
    then err invalid_task
    else if bad_metadata input.metadata
    then err invalid_task
    else if bad_timeout input.timeout_seconds
    then err invalid_task
    else ok tt
