-- ===== src/Scheduler/Service/Preserves.antt =====
-- Every operation of scheduler/service.rs changes the tables of the task store by the steps of
-- store/tasks.rs, so that what all steps keep holds whatever is asked of the scheduler.
use opendaemon.Prelude.{
  ℕ, String, Bool, true, false, [], Option, none, Result, ok, err, refl, leb, Bool-cases, inl, inr,
}
use opendaemon.Json.{Value}
use opendaemon.Security.{DirectoryGrant}
use opendaemon.Task.Model.{Task, TaskStatus, CreateTask}
use opendaemon.Scheduler.Locks.{LockRequest, LockDecision, mode_for_capabilities}
use opendaemon.Store.World.{World}
use opendaemon.Store.Exec.{pure, raise, lift, map_err}
use opendaemon.Store.Logic.{Reads-pure, Reads-lift}
use opendaemon.Store.Tasks
use opendaemon.Store.Tasks.Reading.{Reads-get}
use opendaemon.Store.Locks
use opendaemon.Store.Grants
use opendaemon.Store.Grants.Effects
use opendaemon.Store.Profiles
use opendaemon.Store.Steps.Operations.{Operation, run}
use opendaemon.Store.Steps.{Steps}
use opendaemon.Scheduler.Service
use opendaemon.Store.Steps.Walks.{Walks, Walks-of_Reads, Walks-of_run, Walks-map_err, Walks-bind}
use opendaemon.Scheduler.Errors.{
  TaskValidationError, map_model_error, map_agent_error, map_directory_error, from_store_error,
}
use opendaemon.Scheduler.Service.Admission.{Reads-unless}
use opendaemon.Scheduler.Service.Waiting.{Reads-list}
use opendaemon.Scheduler.Service.{
  unless, request_of, running_or_preparing_count, transition, wait, report_lock, lock_in_mode,
  allocate, allocate_below_capacity, Preparer, mark_preparing_if, prepared, no_filters, filled,
  is_active, is_none_mode,
}

pub Walks-transition :
    (id : String) (next : TaskStatus) (p : Option Value) → Walks (transition id next p)
unfolding run
Walks-transition id next p =
    Walks-map_err from_store_error _
      (Walks-of_run (Tasks.transition id next p) (Operation.transition id next p) (λ w. refl))

Walks-pure : {A : Type 0} (a : A) → Walks {E = TaskValidationError} (pure a)
Walks-pure a = Walks-of_Reads (pure a) (Reads-pure a)

Walks-get_task : (id : String) → Walks (map_err from_store_error (Tasks.get id))
Walks-get_task id = Walks-map_err from_store_error _ (Walks-of_Reads (Tasks.get id) (Reads-get id))

Walks-get_grant : (id : String) → Walks (map_err map_directory_error (Grants.get id))
Walks-get_grant id =
    Walks-map_err map_directory_error _
      (Walks-of_Reads (Grants.get id) (Grants.Effects.Reads-get id))

pub Walks-wait : (id reason : String) (decision : LockDecision) → Walks (wait id reason decision)
unfolding wait
Walks-wait id reason decision =
    Walks-bind _ _ (Walks-transition id TaskStatus.waiting_directory_lock _)
      λ _. Walks-pure decision

Walks-report_lock : (id : String) (b : Bool) → Walks (report_lock id b)
unfolding report_lock
Walks-report_lock id true = Walks-wait id "directory_lock_acquired" LockDecision.acquired
Walks-report_lock id false = Walks-wait id "directory_lock" LockDecision.waiting

Walks-acquire : (r : LockRequest) → Walks (map_err from_store_error (Locks.acquire_lock r))
unfolding run
Walks-acquire r =
    Walks-map_err from_store_error _
      (Walks-of_run (Locks.acquire_lock r) (Operation.acquire_lock r) (λ w. refl))

Walks-allocate : (r : LockRequest) (t : Task) (g : DirectoryGrant) → Walks (allocate r t g)
unfolding allocate lock_in_mode
Walks-allocate r t g =
    elim (Bool-cases (is_none_mode (mode_for_capabilities t.required_capabilities g.lock_policy))) [
      | inl e ↦ rw e (Walks-pure LockDecision.not_required)
      | inr e ↦ rw e (Walks-bind _ _ (Walks-acquire _) (Walks-report_lock t.id))
    ]

Walks-allocate_below_capacity :
    (b : Bool) (r : LockRequest) (t : Task) → Walks (allocate_below_capacity b r t)
unfolding allocate_below_capacity
Walks-allocate_below_capacity true r t = Walks-wait t.id "global_capacity" LockDecision.waiting
Walks-allocate_below_capacity false r t =
    Walks-bind _ _ (Walks-get_grant r.directory_id) (Walks-allocate r t)

Walks-try_acquire : (max : ℕ) (r : LockRequest) → Walks (Service.try_acquire_directory_lock max r)
unfolding Service.try_acquire_directory_lock running_or_preparing_count
Walks-try_acquire max r = Walks-bind _ _ (Walks-get_task r.task_id) λ t.
    Walks-bind _ _
      (Walks-bind _ _
        (Walks-map_err from_store_error _
          (Walks-of_Reads (Tasks.list no_filters) (Reads-list no_filters)))
        λ tasks. Walks-pure _)
      λ count. Walks-allocate_below_capacity (leb max count) r t

Walks-unless : (b : Bool) (e : TaskValidationError) → Walks (unless b e)
Walks-unless b e = Walks-of_Reads (unless b e) (Reads-unless b e)

Walks-lift : {E A : Type 0} (r : Result A E) → Walks (lift r)
Walks-lift r = Walks-of_Reads (lift r) (Reads-lift r)

Walks-enqueue_task : (input : CreateTask) → Walks (Service.enqueue_task input)
unfolding Service.enqueue_task run
Walks-enqueue_task input = Walks-bind _ _ (Walks-map_err map_model_error _ (Walks-lift _)) λ _.
    Walks-bind _ _ (Walks-get_grant input.directory_id) λ grant.
      Walks-bind _ _ (Walks-lift _) λ mode.
        Walks-bind _ _
          (Walks-map_err map_agent_error _
            (Walks-of_Reads (Profiles.get input.agent_id) (Profiles.Reads-get input.agent_id)))
          λ profile. Walks-bind _ _ (Walks-unless _ _) λ _. Walks-bind _ _ (Walks-lift _) λ _.
            Walks-bind _ _ (Walks-lift _) λ _. Walks-bind _ _ (Walks-lift _) λ _.
              Walks-bind _ _ (Walks-unless _ _) λ _. Walks-bind _ _ (Walks-unless _ _) λ _.
                Walks-bind _ _
                  (Walks-map_err map_directory_error _ (
                    Walks-of_Reads (Grants.authorize (request_of input mode))
                      (Grants.Effects.Reads-authorize (request_of input mode))))
                  λ _. Walks-map_err from_store_error _ (
                    Walks-of_run (Tasks.create (filled input mode profile))
                      (Operation.create (filled input mode profile)) (λ w. refl))

Walks-complete_task : (id message : String) → Walks (Service.complete_task id message)
unfolding Service.complete_task run
Walks-complete_task id message = Walks-bind _ _ (Walks-transition id TaskStatus.completed _) λ t.
    Walks-bind _ _
      (Walks-map_err from_store_error _ (
        Walks-of_run (Tasks.save_result id message []) (Operation.save_result id message [])
          (λ w. refl)))
      λ _. Walks-pure t

Walks-cancel_task : (id : String) → Walks (Service.cancel_task id)
unfolding Service.cancel_task run
Walks-cancel_task id = Walks-bind _ _ (Walks-get_task id) λ t.
    Walks-bind _ _ (Walks-unless _ _) λ _.
      Walks-map_err from_store_error _
        (Walks-of_run (Tasks.cancel id) (Operation.cancel id) (λ w. refl))

Walks-release_locks : (id : String) → Walks (Service.release_locks id)
unfolding Service.release_locks run
Walks-release_locks id =
    Walks-map_err from_store_error _
      (Walks-of_run (Locks.release_locks id) (Operation.release_locks id) (λ w. refl))

Walks-mark_preparing_if : (b : Bool) (id : String) → Walks (mark_preparing_if b id)
unfolding mark_preparing_if Service.mark_preparing
Walks-mark_preparing_if true id =
    Walks-bind _ _ (Walks-transition id TaskStatus.preparing _) λ _. Walks-pure tt
Walks-mark_preparing_if false id = Walks-pure tt

module _ {Workspace Error : Type 0} where
  Walks-prepared : (id : String) (r : Result Workspace Error) → Walks (prepared id r)
  unfolding prepared Service.fail_task raise
  Walks-prepared id (ok workspace) = Walks-pure workspace
  Walks-prepared id (err e) =
      Walks-bind _ _ (Walks-transition id TaskStatus.failed _)
        λ _. record { steps = λ w. Steps.none }

  Walks-prepare_workspace :
      (id : String) (prepare : Preparer Workspace Error)
      → Walks (Service.prepare_workspace id prepare)
  unfolding Service.prepare_workspace
  Walks-prepare_workspace id prepare = Walks-bind _ _ (Walks-get_task id) λ t.
      Walks-bind _ _ (Walks-get_grant t.directory_id)
        λ g. Walks-bind _ _ (Walks-mark_preparing_if _ id) λ _. Walks-prepared id _

-- a call of the scheduler
module _ (Workspace Error : Type 0) where
  pub data Call : Type 0 where
    enqueue_task : CreateTask → Call
    try_acquire_directory_lock : ℕ → LockRequest → Call
    prepare_workspace : String → Preparer Workspace Error → Call
    mark_preparing mark_running cancel_task release_locks : String → Call
    complete_task fail_task : String → String → Call

module _ {Workspace Error : Type 0} where
  -- the world after a call, whether it returned or failed
  unfoldable pub serve : Call Workspace Error → World → World
  unfolding Service.mark_preparing Service.mark_running Service.fail_task
  serve (Call.enqueue_task input) w = (Service.enqueue_task input w).1
  serve (Call.try_acquire_directory_lock max r) w = (Service.try_acquire_directory_lock max r w).1
  serve (Call.prepare_workspace id prepare) w = (Service.prepare_workspace id prepare w).1
  serve (Call.mark_preparing id) w = (Service.mark_preparing id w).1
  serve (Call.mark_running id) w = (Service.mark_running id w).1
  serve (Call.cancel_task id) w = (Service.cancel_task id w).1
  serve (Call.release_locks id) w = (Service.release_locks id w).1
  serve (Call.complete_task id message) w = (Service.complete_task id message w).1
  serve (Call.fail_task id error) w = (Service.fail_task id error w).1

  -- Whatever is asked of the scheduler, in any world, and whether it succeeds or fails, the tables
  -- change by steps of the task store only.
  pub serve-Steps : (c : Call Workspace Error) (w : World) → Steps w.db (serve c w).db
  unfolding serve
  serve-Steps (Call.enqueue_task input) w = (Walks-enqueue_task input).steps w
  serve-Steps (Call.try_acquire_directory_lock max r) w = (Walks-try_acquire max r).steps w
  serve-Steps (Call.prepare_workspace id prepare) w = (Walks-prepare_workspace id prepare).steps w
  serve-Steps (Call.mark_preparing id) w = (Walks-transition id TaskStatus.preparing none).steps w
  serve-Steps (Call.mark_running id) w = (Walks-transition id TaskStatus.running none).steps w
  serve-Steps (Call.cancel_task id) w = (Walks-cancel_task id).steps w
  serve-Steps (Call.release_locks id) w = (Walks-release_locks id).steps w
  serve-Steps (Call.complete_task id message) w = (Walks-complete_task id message).steps w
  serve-Steps (Call.fail_task id error) w = (Walks-transition id TaskStatus.failed _).steps w
