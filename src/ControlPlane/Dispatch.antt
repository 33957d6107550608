-- ===== src/ControlPlane/Dispatch.antt =====
-- control_plane/dispatch.rs: the tasks that the control plane sends. `json!` builds maps whose keys
-- are in order. The proofs are in the child Effects.
pub mod Effects
use opendaemon.Prelude.{
  String, Bool, true, false, ◌&&◌, List, [], ◌∷◌, Option, none, some, find, str_eq, if◌then◌else◌,
  Result, ok, err, and_then,
}
use opendaemon.Json.{Value, object, field, end, string, get, as_str}
use opendaemon.Security.{
  DirectoryCapability, WorkspaceMode, read, write, shell, git, worktree, direct, is_direct,
}
use opendaemon.Task.Model.{Task, CreateTask}
use opendaemon.Store.World.{World, Db}
use opendaemon.Store.Exec.{Exec, pure, lift, ◌>>=◌, map_err, required}
use opendaemon.Store.Tasks
use opendaemon.Scheduler.Errors.{TaskValidationError, from_store_error}
use opendaemon.Scheduler.Service.{enqueue_task, cancel_task, no_filters}
use opendaemon.ControlPlane.{RemoteDispatchTask}

pub data ControlPlaneDispatchError : Type 0 where
  invalid_dispatch : ControlPlaneDispatchError
  task : TaskValidationError → ControlPlaneDispatchError

abbrev pub Op : Type 0 → Type 0
Op = Exec ControlPlaneDispatchError

-- `metadata.get("control_plane")?.get("remote_task_id")?.as_str() == Some(remote_task_id)`
abbrev pub get_in : Option Value → String → Option Value
get_in none key = none
get_in (some v) key = get v key

abbrev pub text_in : Option Value → Option String
text_in none = none
text_in (some v) = as_str v

abbrev pub is_text : String → Option String → Bool
is_text s none = false
is_text s (some t) = str_eq t s

unfoldable pub is_remote_task : String → Task → Bool
is_remote_task id t =
    is_text id (text_in (get_in (get_in t.metadata "control_plane") "remote_task_id"))

unfoldable pub find_by_remote_task_id : String → Op (Option Task)
find_by_remote_task_id id = do
  tasks ← map_err task (map_err from_store_error (Tasks.list no_filters))
  pure (find (is_remote_task id) tasks)

unfoldable pub parse_capability : String → Result DirectoryCapability ControlPlaneDispatchError
parse_capability s =
    if str_eq s "read"
    then ok read
    else if str_eq s "write"
    then ok write
    else if str_eq s "shell"
    then ok shell
    else if str_eq s "git"
    then ok git
    else err invalid_dispatch

unfoldable pub parse_capabilities :
    List String → Result (List DirectoryCapability) ControlPlaneDispatchError
unfolding parse_capability
parse_capabilities [] = ok []
parse_capabilities (s ∷ ss) =
    and_then (parse_capability s) λ c. and_then (parse_capabilities ss) λ cs. ok (c ∷ cs)

unfoldable pub parse_workspace_mode : String → Result WorkspaceMode ControlPlaneDispatchError
parse_workspace_mode s =
    if str_eq s "worktree"
    then ok worktree
    else if str_eq s "direct"
    then ok direct
    else err invalid_dispatch

unfoldable pub metadata_of : RemoteDispatchTask → Value
metadata_of r = object (
    field "control_plane"
      (object (
        field "remote_task_id" (string r.remote_task_id)
          (field "source" (string "control_plane") (field "task_token" (string r.task_token) end))))
      (field "upstream" r.metadata end))

unfoldable pub create_task_of :
    RemoteDispatchTask → List DirectoryCapability → WorkspaceMode → CreateTask
unfolding metadata_of
create_task_of r capabilities mode = record {
  owner_product_id = r.owner_product_id;
  agent_id = r.agent_id;
  directory_id = r.directory_id;
  required_capabilities = some capabilities;
  workspace_mode = some mode;
  direct_mode_task_opt_in = is_direct mode;
  prompt = r.prompt;
  metadata = some (metadata_of r);
  provider_id = none;
  model = none;
  permission_mode = none;
  timeout_seconds = r.timeout_seconds;
}

unfoldable pub ingest_new : RemoteDispatchTask → Op Task
ingest_new r = do
  capabilities ← lift (parse_capabilities r.required_capabilities)
  mode ← lift (parse_workspace_mode r.workspace_mode)
  map_err task (enqueue_task (create_task_of r capabilities mode))

unfoldable pub ingest_unless : RemoteDispatchTask → Option Task → Op Task
ingest_unless r (some existing) = pure existing
ingest_unless r none = ingest_new r

unfoldable pub ingest : RemoteDispatchTask → Op Task
ingest r = do existing ← find_by_remote_task_id r.remote_task_id; ingest_unless r existing

unfoldable pub cancel_remote_task : String → Op Task
cancel_remote_task id = do
  found ← find_by_remote_task_id id
  t ← required invalid_dispatch found
  map_err task (cancel_task t.id)
