-- ===== src/Examples/Scheduling.antt =====
-- Calls of the scheduler on the small daemon.
use opendaemon.Prelude.{String, true, ◌≡◌, refl, List, [], ◌∷◌, some, none, ok, err}
use opendaemon.Task.Model.{Task, TaskStatus}
use opendaemon.Scheduler.Locks.{LockDecision, LockRequest, LockMode}
use opendaemon.Store.World.{World}
use opendaemon.Store.Logic.{Ensures}
use opendaemon.Store.Locks.{locks_in}
use opendaemon.Store.Tasks.Effects.{Created, created_rows}
use opendaemon.Store.Tasks.Rows.{created_task}
use opendaemon.Store.Steps.Lifecycle.{Later}
use opendaemon.Store.Steps.Numbering.{IsNumbered, events_of}
use opendaemon.Store.Steps.Exclusion.{AreCompatible}
use opendaemon.Scheduler.Service
use opendaemon.Scheduler.Service.{filled}
use opendaemon.Scheduler.Service.Admission.{Admitted, enqueue_task_effect}
use opendaemon.Scheduler.Service.Allocation.{
  Allocated, LeftBehind, try_acquire_directory_lock_effect,
}
use opendaemon.Scheduler.Service.Retry.{waiting_task_never_acquires}
use opendaemon.Scheduler.Service.Preserves.{Call}
use opendaemon.Scheduler.Service.Promises.{Done, Left}
use opendaemon.Scheduler.Service.Contract.{run_call, run_call-Done}
use opendaemon.Scheduler.Service.Invariants.{
  serve_all, scheduler_safe, scheduler_lifecycle, scheduler_terminal,
}
use opendaemon.Store.Rows.{task_by_id}
use opendaemon.Security.{worktree, DirectoryLockPolicy}
use opendaemon.Json.{empty_object}
use opendaemon.Task.Event.{TaskEventType}
use opendaemon.Scheduler.Execution.{
  RuntimeExecutionOutcome, RuntimeExecutionStatus, PreparedWorkspace,
}
use opendaemon.Examples.{a_db, a_world, a_task, a_grant, a_request, a_lock_request}
use opendaemon.Examples.Steps.{numbered, compatible}

abbrev AnyCall : Type 0
AnyCall = Call (Unit {0}) (Unit {0})

abbrev day : List AnyCall
day =
    Call.enqueue_task a_request
    ∷ Call.complete_task "task_1" "done"
    ∷ Call.try_acquire_directory_lock 2 a_lock_request
    ∷ Call.prepare_workspace "task_3" (λ id grant mode. err tt)
    ∷ []

enqueue_task_effect_example :
    Ensures
      (λ _. Unit)
      (λ d t d'.
        (a : Admitted a_request d) × (now : String) × (t
          ≡ created_task (filled a_request a.mode a.profile) now d)
        × (created_rows (filled a_request a.mode a.profile) now d ≡ some d'))
      (λ d d'. (a : Admitted a_request d) × Created (filled a_request a.mode a.profile) d d')
      (Service.enqueue_task a_request)
enqueue_task_effect_example = enqueue_task_effect a_request

try_acquire_directory_lock_effect_example :
    Ensures
      (λ _. Unit)
      (Allocated 2 a_lock_request)
      (LeftBehind a_lock_request)
      (Service.try_acquire_directory_lock 2 a_lock_request)
try_acquire_directory_lock_effect_example = try_acquire_directory_lock_effect 2 a_lock_request

abbrev no_lock_world : World
no_lock_world = record a_world {
  db = record a_db {
    directory_grants = record a_grant { lock_policy = DirectoryLockPolicy.none } ∷ [];
  };
}

answered :
    (Service.try_acquire_directory_lock 2 a_lock_request no_lock_world).0
    ≡ ok LockDecision.not_required
unfolding Service.try_acquire_directory_lock opendaemon.Store.Exec.◌>>=◌
    opendaemon.Store.Exec.map_err opendaemon.Store.Tasks.get opendaemon.Store.Exec.call
    opendaemon.Store.Exec.query Service.running_or_preparing_count opendaemon.Store.Tasks.list
    Service.allocate_below_capacity opendaemon.Store.Rows.matches opendaemon.Store.Grants.get
    Service.allocate opendaemon.Scheduler.Locks.mode_for_capabilities
answered = refl

waiting_task_never_acquires_example : LockDecision.not_required ≡ LockDecision.not_required
waiting_task_never_acquires_example =
    waiting_task_never_acquires 2 a_lock_request (a_task "task_3" TaskStatus.waiting_directory_lock)
      no_lock_world LockDecision.not_required refl refl answered

abbrev one_call : AnyCall
one_call = Call.prepare_workspace "task_3" (λ id grant mode. err tt)

run_call-Done_example :
    Ensures (λ _. Unit) (λ d _ d'. Done one_call d d') (Left one_call) (run_call one_call)
run_call-Done_example = run_call-Done one_call

scheduler_safe_example :
    IsNumbered 1 (events_of "task_1" (serve_all day a_world).db)
    × AreCompatible (locks_in "dir_1" (serve_all day a_world).db)
scheduler_safe_example = scheduler_safe day a_world numbered compatible "task_1" "dir_1"

scheduler_lifecycle_example :
    Later "task_1" (a_task "task_1" TaskStatus.running) (serve_all day a_world).db
scheduler_lifecycle_example =
    scheduler_lifecycle day a_world "task_1" (a_task "task_1" TaskStatus.running) refl

scheduler_terminal_example :
    (u : Task) × (task_by_id "task_2" (serve_all day a_world).db ≡ some u)
    × (u.status ≡ TaskStatus.completed)
scheduler_terminal_example =
    scheduler_terminal day a_world "task_2" (a_task "task_2" TaskStatus.completed) refl refl

abbrev an_outcome : RuntimeExecutionOutcome
an_outcome = record {
  status = RuntimeExecutionStatus.failed;
  exit_code = some (true, 1);
  final_message = "provider command failed";
  changed_files = [];
  diff = none;
  session_id = none;
  provider_result = none;
  usage = none;
  error = some (record { code = "command_failed"; message = "exit status 1" });
  events = record { kind = TaskEventType.process_stdout; payload = empty_object } ∷ [];
}

abbrev a_workspace : PreparedWorkspace
a_workspace = record {
  workspace_mode = worktree;
  working_directory = "/trees/task_1";
  source_directory_id = "dir_1";
  worktree_path = some "/trees/task_1";
  branch_name = some "opendaemon/task_1";
}
