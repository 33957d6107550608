-- ===== src/Scheduler/Execution/Running.antt =====
-- `execute_task` and `cancel_running_task` of scheduler/execution.rs. The loaded registry, the view
-- of a provider's runtime, the workspace preparer and the adapters are arguments; an adapter may
-- change the world, since it stores permission requests and events while it runs.
use opendaemon.Prelude.{
  ℕ, String, Bool, true, false, List, Option, none, some, unwrap_or, if◌then◌else◌, Result, ok, err,
}
use opendaemon.Agent.{AgentProfile}
use opendaemon.Security.{DirectoryGrant}
use opendaemon.Registry
use opendaemon.Registry.{
  ProviderRegistry, ProviderEntry, ProviderManifest, IntegrationType, cli, acp, http, native,
}
use opendaemon.Runtime.{RuntimeView, runtime_available}
use opendaemon.Task.Model.{Task, is_terminal}
use opendaemon.Scheduler.Locks.{LockDecision, from_task}
use opendaemon.Scheduler.Errors.{TaskValidationError, from_store_error}
use opendaemon.Scheduler.Service.{
  Preparer, try_acquire_directory_lock, prepare_workspace, mark_running,
}
use opendaemon.Store.World.{World}
use opendaemon.Store.Exec.{pure, raise, lift, required, ◌>>=◌, ◌>>◌, map_err}
use opendaemon.Store.Tasks
use opendaemon.Store.Grants
use opendaemon.Store.Profiles
use opendaemon.Store.Profiles.{AgentStoreError}
use opendaemon.Store.Grants.{DirectoryStoreError}
use opendaemon.Scheduler.Execution.{
  RuntimeExecutionOutcome, RuntimeAdapterError, PreparedWorkspace, ExecutionError,
  runtime_unavailable, Op, from_store, persist_outcome,
}

abbrev pub default_task_timeout_seconds : ℕ
default_task_timeout_seconds = 300

-- `RuntimeExecutionRequest` of runtime/adapter.rs; whether it carries a `TaskEventService` is the
-- world's `event_bus`
pub record RuntimeExecutionRequest : Type 0 where
  pub task_id : String
  pub provider_id : String
  pub runtime_id : String
  pub executable : String
  pub manifest : ProviderManifest
  pub agent_profile : AgentProfile
  pub directory_grant : DirectoryGrant
  pub task : Task
  pub workspace : PreparedWorkspace
  pub timeout_seconds : ℕ
  pub allow_agent_custom_env : Bool

-- the trait `RuntimeAdapter`
pub record RuntimeAdapter : Type 0 where
  pub execute : RuntimeExecutionRequest → World → RuntimeExecutionOutcome × World
  pub cancel : String → World → World

pub record AdapterSelector : Type 0 where
  pub cli : RuntimeAdapter
  pub acp : RuntimeAdapter
  pub http : RuntimeAdapter

abbrev pub adapter_not_implemented : RuntimeAdapterError
adapter_not_implemented = record {
  code = "adapter_not_implemented";
  message = "provider adapter is not implemented";
}

-- `AdapterSelector::for_manifest`
unfoldable pub for_manifest :
    AdapterSelector → IntegrationType → Result RuntimeAdapter ExecutionError
for_manifest s IntegrationType.cli = ok s.cli
for_manifest s IntegrationType.acp = ok s.acp
for_manifest s IntegrationType.http = ok s.http
for_manifest s native = err (ExecutionError.adapter adapter_not_implemented)

abbrev pub map_agent_store : AgentStoreError → ExecutionError
map_agent_store e = ExecutionError.task (from_store_error Tasks.store)

abbrev pub map_directory_store : DirectoryStoreError → ExecutionError
map_directory_store e = ExecutionError.task (from_store_error Tasks.store)

unfoldable pub refuse_terminal : Bool → Op (Unit {0})
unfolding raise pure
refuse_terminal true = raise (ExecutionError.task TaskValidationError.task_already_terminal)
refuse_terminal false = pure tt

-- `.filter(|runtime| runtime_available(…))`
abbrev pub usable : IntegrationType → Option RuntimeView → Option RuntimeView
usable t none = none
usable t (some v) = if runtime_available v t then some v else none

unfoldable pub proceed : LockDecision → Op (Unit {0})
unfolding raise pure
proceed LockDecision.acquired = pure tt
proceed LockDecision.not_required = pure tt
proceed LockDecision.waiting =
    raise (ExecutionError.task TaskValidationError.directory_lock_conflict)

module _ {Error : Type 0} (registry : Result ProviderRegistry (List String))
    (runtimes : String → Option RuntimeView) (prepare : Preparer PreparedWorkspace Error)
    (adapters : AdapterSelector) (max_concurrent_tasks : ℕ) (allow_agent_custom_env : Bool) where
  abbrev pub loaded : Result ProviderRegistry ExecutionError
  loaded = elim registry [ ok r ↦ ok r | err _ ↦ err ExecutionError.registry ]

  -- what is known before the task takes its lock
  pub record Plan : Type 0 where
    pub task : Task
    pub profile : AgentProfile
    pub grant : DirectoryGrant
    pub entry : ProviderEntry
    pub runtime : RuntimeView
    pub executable : String

  unfoldable pub plan : String → Op Plan
  unfolding refuse_terminal
  plan task_id = do
    task ← map_err from_store (Tasks.get task_id)
    refuse_terminal (is_terminal task.status)
    profile ← map_err map_agent_store (Profiles.get task.agent_id)
    grant ← map_err map_directory_store (Grants.get task.directory_id)
    r ← lift loaded
    entry ← required runtime_unavailable (Registry.get r profile.provider_id)
    runtime ←
        required runtime_unavailable
          (usable entry.manifest.integration_type (runtimes profile.provider_id))
    executable ← required runtime_unavailable runtime.executable
    pure (record {
      task = task;
      profile = profile;
      grant = grant;
      entry = entry;
      runtime = runtime;
      executable = executable;
    })

  abbrev pub request : String → Plan → PreparedWorkspace → Task → RuntimeExecutionRequest
  request task_id p workspace current = record {
    task_id = p.task.id;
    provider_id = p.profile.provider_id;
    runtime_id = p.runtime.id;
    executable = p.executable;
    manifest = p.entry.manifest;
    agent_profile = p.profile;
    directory_grant = p.grant;
    task = current;
    workspace = workspace;
    timeout_seconds = unwrap_or default_task_timeout_seconds p.task.timeout_seconds;
    allow_agent_custom_env = allow_agent_custom_env;
  }

  -- an adapter that is about to run, and its request
  pub record Started : Type 0 where
    pub plan : Plan
    pub adapter : RuntimeAdapter
    pub workspace : PreparedWorkspace
    pub current : Task

  abbrev pub begun : Plan → RuntimeAdapter → PreparedWorkspace → Task → Started
  begun p adapter workspace current = record {
    plan = p;
    adapter = adapter;
    workspace = workspace;
    current = current;
  }

  -- from the lock to the call of the adapter
  unfoldable pub start : String → Plan → Op Started
  unfolding proceed for_manifest
  start task_id p = do
    decision ←
        map_err ExecutionError.task
          (try_acquire_directory_lock max_concurrent_tasks (from_task p.task))
    proceed decision
    workspace ← map_err ExecutionError.task (prepare_workspace task_id prepare)
    map_err ExecutionError.task (mark_running task_id)
    adapter ← lift (for_manifest adapters p.entry.manifest.integration_type)
    current ← map_err from_store (Tasks.get task_id)
    pure (begun p adapter workspace current)

  abbrev pub run_adapter : String → Started → Op RuntimeExecutionOutcome
  run_adapter task_id s w =
      let (outcome, w') = s.adapter.execute (request task_id s.plan s.workspace s.current) w in
      (ok outcome, w')

  unfoldable pub finish : String → Started → Op Task
  finish task_id s = do outcome ← run_adapter task_id s; persist_outcome task_id outcome s.workspace

  unfoldable pub execute_task : String → Op Task
  execute_task task_id = do p ← plan task_id; s ← start task_id p; finish task_id s

  unfoldable pub cancel_running_task : String → Op (Unit {0})
  unfolding for_manifest pure
  cancel_running_task task_id = do
    task ← map_err from_store (Tasks.get task_id)
    profile ← map_err map_agent_store (Profiles.get task.agent_id)
    r ← lift loaded
    entry ← required runtime_unavailable (Registry.get r profile.provider_id)
    adapter ← lift (for_manifest adapters entry.manifest.integration_type)
    (λ w. (ok tt, adapter.cancel task_id w))
