-- ===== src/Examples/Running.antt =====
-- A task that is run.
use opendaemon.Prelude.{String, ◌≡◌, refl, false, List, [], ◌∷◌, Option, some, none, Result, ok}
use opendaemon.Task.Model.{Task, TaskStatus}
use opendaemon.Runtime.{RuntimeView, RuntimeKind, RuntimeStatus}
use opendaemon.Registry.{ProviderRegistry}
use opendaemon.Store.World.{World}
use opendaemon.Scheduler.Service.{Preparer}
use opendaemon.Scheduler.Execution.{
  RuntimeExecutionOutcome, RuntimeExecutionStatus, PreparedWorkspace, result_from_outcome,
}
use opendaemon.Scheduler.Execution.Running.{RuntimeAdapter, AdapterSelector, execute_task}
use opendaemon.Scheduler.Execution.Start.{Executed, execute_task_effect}
use opendaemon.Security.{worktree}
use opendaemon.Registry
use opendaemon.Runtime
use opendaemon.Scheduler.Errors
use opendaemon.Scheduler.Execution
use opendaemon.Scheduler.Execution.Running
use opendaemon.Scheduler.Locks
use opendaemon.Scheduler.Service
use opendaemon.Store.Exec
use opendaemon.Store.Grants
use opendaemon.Store.Locks as StoreLocks
use opendaemon.Store.Profiles
use opendaemon.Store.Rows
use opendaemon.Store.Tasks
use opendaemon.Task.State
use opendaemon.Text.Decimal
use opendaemon.Examples.{a_db, a_world, a_task}
use opendaemon.Examples.Providers.{a_registry}

abbrev success : RuntimeExecutionOutcome
success = record {
  status = RuntimeExecutionStatus.completed;
  exit_code = some (false, 0);
  final_message = "done";
  changed_files = [];
  diff = none;
  session_id = none;
  provider_result = none;
  usage = none;
  error = none;
  events = [];
}

abbrev a_workspace : PreparedWorkspace
a_workspace = record {
  workspace_mode = worktree;
  working_directory = "/trees/task_1";
  source_directory_id = "dir_1";
  worktree_path = some "/trees/task_1";
  branch_name = some "opendaemon/task_1";
}

abbrev an_adapter : RuntimeAdapter
an_adapter = record { execute = λ r w. (success, w); cancel = λ id w. w }

abbrev adapters : AdapterSelector
adapters = record { cli = an_adapter; acp = an_adapter; http = an_adapter }

abbrev a_runtime : RuntimeView
a_runtime = record {
  id = "codex_cli";
  provider_id = "codex";
  kind = RuntimeKind.local_cli;
  status = RuntimeStatus.available;
  executable = some "/bin/codex";
  version = none;
  detected_at = none;
  error = none;
}

abbrev registry : Result ProviderRegistry (List String)
registry = ok a_registry

abbrev runtimes : String → Option RuntimeView
runtimes id = some a_runtime

abbrev prepare : Preparer PreparedWorkspace (Unit {0})
prepare id grant mode = ok a_workspace

-- the small daemon with nothing but a task that is queued
abbrev idle : World
idle = record a_world {
  db = record a_db {
    tasks = a_task "task_1" TaskStatus.queued ∷ [];
    task_events = [];
    directory_locks = [];
  };
}

abbrev finished : Task
finished = record (a_task "task_1" TaskStatus.completed) {
  result =
      some (result_from_outcome (a_task "task_1" TaskStatus.completed) success a_workspace "now");
  updated_at = "now";
  started_at = some "now";
  completed_at = some "now";
}

ran : (execute_task registry runtimes prepare adapters 2 false "task_1" idle).0 ≡ ok finished
unfolding Running.execute_task Exec.◌>>=◌ Running.plan Exec.map_err Tasks.get Exec.call Exec.query
    Profiles.get Grants.get Registry.get Runtime.runtime_available Running.start
    Service.try_acquire_directory_lock Locks.from_task Service.running_or_preparing_count Tasks.list
    Service.allocate_below_capacity Errors.from_store_error Errors.map_directory_error
    Errors.map_model_error Running.finish Running.for_manifest Running.proceed
    Running.refuse_terminal Execution.now_or_epoch Execution.persist_events
    Execution.persist_outcome Execution.save_outcome Locks.mode_for_capabilities Service.allocate
    Service.fail_task Service.lock_in_mode Service.mark_preparing Service.mark_preparing_if
    Service.mark_running Service.prepare_workspace Service.prepared Service.report_lock Service.wait
    Exec.constrained Exec.lift Exec.now_rfc3339 Exec.pure Exec.raise Exec.required Exec.statement
    Exec.transaction StoreLocks.acquire_lock StoreLocks.acquire_unless StoreLocks.active_locks
    StoreLocks.insert_lock Rows.event_id Rows.event_type_for_status Rows.matches
    Rows.next_sequence_of Rows.release_held Rows.replace_lock Rows.update_result Rows.update_status
    Tasks.announce Tasks.append_event Tasks.change_status Tasks.event_by_sequence Tasks.follow
    Tasks.insert_event_tx Tasks.move_task Tasks.next_sequence Tasks.publish_if_configured
    Tasks.publish_stored Tasks.release_if_terminal Tasks.release_locks_tx
    Tasks.save_execution_result Tasks.transition State.validate_transition Decimal.show
ran = refl

execute_task_effect_example :
    Executed registry runtimes prepare adapters 2 false "task_1" idle finished
execute_task_effect_example =
    execute_task_effect registry runtimes prepare adapters 2 false "task_1" idle finished ran
