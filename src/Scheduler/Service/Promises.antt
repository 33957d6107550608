-- ===== src/Scheduler/Service/Promises.antt =====
-- What an operation of scheduler/service.rs has done where it returned, and what it may have left where
-- it failed.
use opendaemon.Prelude.{
  String, Bool, true, false, ◌≡◌, ◌⊎◌, inr, [], Option, some, Result, ok, err, unwrap_or,
}
use opendaemon.Json.{Value, empty_object}
use opendaemon.Security.{DirectoryGrant}
use opendaemon.Task.Model.{Task, TaskStatus}
use opendaemon.Scheduler.Locks.{LockDecision}
use opendaemon.Store.World.{World, Db}
use opendaemon.Store.Exec.{pure, ◌>>=◌, continue}
use opendaemon.Store.Logic.{Outcome, Ensures, Ensures-weaken}
use opendaemon.Store.Logic.Writes.{Ensures-map_err}
use opendaemon.Store.Rows.{task_by_id}
use opendaemon.Store.Tasks.Moves.{Moved, Transitioned, transition_effect}
use opendaemon.Store.Tasks.Effects.{Created, created_rows, SavedResult}
use opendaemon.Store.Locks.Effects.{Released}
use opendaemon.Store.Grants.{grant_by_id}
use opendaemon.Scheduler.Errors.{TaskValidationError, from_store_error}
use opendaemon.Scheduler.Service.{Op, filled, payload, transition, is_ended, is_waiting}
use opendaemon.Scheduler.Service.Admission.{Admitted}
use opendaemon.Scheduler.Service.Allocation.{Allocated, LeftBehind}
use opendaemon.Scheduler.Service.Preserves.{Call}

-- the task has the status: it moved to it, or it ended in it before and nothing changed
abbrev pub Reached : String → TaskStatus → Value → Db → Db → Type 0
Reached id next p d d' = (t : Task) × Transitioned id next p d t d'

-- a task that waits is being prepared, any other stays as it is
abbrev pub Readied : Bool → String → Db → Db → Type 0
Readied true id d d' = Reached id TaskStatus.preparing empty_object d d'
Readied false id d d' = (d' ≡ d)

-- the same without its answer, where the call fails later, or in reading the row back
abbrev pub MaybeReadied : Bool → String → Db → Db → Type 0
MaybeReadied true id d d' =
    Moved id TaskStatus.preparing empty_object d d'
    ⊎ Reached id TaskStatus.preparing empty_object d d'
MaybeReadied false id d d' = (d' ≡ d)

pub MaybeReadied-of :
    (b : Bool) (id : String) (d d' : Db) → Readied b id d d' → MaybeReadied b id d d'
MaybeReadied-of true id d d' h = inr h
MaybeReadied-of false id d d' h = h

abbrev pub preparation_failed : Value
preparation_failed = payload "error" "workspace preparation failed"

module _ {Workspace Error : Type 0} where
  -- what a call that returned has done
  abbrev pub Done : Call Workspace Error → Db → Db → Type 0
  Done (Call.enqueue_task input) d d' =
      (a : Admitted input d) × (now : String) × (created_rows (filled input a.mode a.profile) now d
        ≡ some d')
  Done (Call.try_acquire_directory_lock max r) d d' = (x : LockDecision) × Allocated max r d x d'
  Done (Call.prepare_workspace id prepare) d d' =
      (t : Task) × (g : DirectoryGrant) × (workspace : Workspace) × (task_by_id id d ≡ some t)
      × (grant_by_id t.directory_id d ≡ some g)
      × (prepare t.id g t.workspace_mode ≡ ok workspace)
      × Readied (is_waiting t.status) id d d'
  Done (Call.mark_preparing id) d d' = Reached id TaskStatus.preparing empty_object d d'
  Done (Call.mark_running id) d d' = Reached id TaskStatus.running empty_object d d'
  Done (Call.cancel_task id) d d' =
      (t : Task) × (task_by_id id d ≡ some t)
      × (is_ended t.status ≡ false)
      × Reached id TaskStatus.cancelled empty_object d d'
  Done (Call.release_locks id) d d' = Released id d d'
  Done (Call.complete_task id message) d d' =
      (d₁ : Db) × Reached id TaskStatus.completed empty_object d d₁
      × SavedResult id message [] d₁ d'
  Done (Call.fail_task id error) d d' = Reached id TaskStatus.failed (payload "error" error) d d'

  -- what a call that failed may have left, beside nothing
  abbrev pub Left : Call Workspace Error → Db → Db → Type 0
  Left (Call.enqueue_task input) d d' =
      (a : Admitted input d) × Created (filled input a.mode a.profile) d d'
  Left (Call.try_acquire_directory_lock max r) d d' = LeftBehind r d d'
  Left (Call.prepare_workspace id prepare) d d' =
      (t : Task) × (g : DirectoryGrant) × (d₁ : Db) × (task_by_id id d ≡ some t)
      × (grant_by_id t.directory_id d ≡ some g)
      × MaybeReadied (is_waiting t.status) id d d₁
      × ((d' ≡ d₁)
          ⊎ ((x : Error) × (prepare t.id g t.workspace_mode ≡ err x)
              × Moved id TaskStatus.failed preparation_failed d₁ d'))
  Left (Call.mark_preparing id) d d' = Moved id TaskStatus.preparing empty_object d d'
  Left (Call.mark_running id) d d' = Moved id TaskStatus.running empty_object d d'
  Left (Call.cancel_task id) d d' =
      (t : Task) × (task_by_id id d ≡ some t)
      × (is_ended t.status ≡ false)
      × Moved id TaskStatus.cancelled empty_object d d'
  Left (Call.release_locks id) d d' = ⊥
  Left (Call.complete_task id message) d d' =
      Moved id TaskStatus.completed empty_object d d'
      ⊎ Reached id TaskStatus.completed empty_object d d'
  Left (Call.fail_task id error) d d' = Moved id TaskStatus.failed (payload "error" error) d d'

pub Ensures-transition :
    (id : String) (next : TaskStatus) (p : Option Value)
    → let q = unwrap_or empty_object p in
      Ensures
        (λ _. Unit)
        (λ d _ d'. Reached id next q d d')
        (Moved id next q)
        (transition id next p)
Ensures-transition id next p =
    Ensures-weaken _ (λ d u. tt) (λ d t d' u h. (t, h)) (λ d d' u h. h)
      (Ensures-map_err from_store_error _ (transition_effect id next p))

-- an operation whose answer is replaced
pub Ensures-then_pure :
    {A B : Type 0} {S : Db → Db → Type 0} {T : Db → Db → Type 0} (m : Op A) (b : B)
    → Ensures (λ _. Unit) (λ d _ d'. S d d') T m
    → Ensures (λ _. Unit) (λ d _ d'. S d d') T (m >>= λ _. pure b)
unfolding ◌>>=◌
Ensures-then_pure {A} {B} {S} {T} m b h = record { at = λ w p. go w.db (m w).0 (m w).1 (h.at w p) }
  where
    go :
        (d : Db) (r : Result A TaskValidationError) (w : World)
        → Outcome (λ d _ d'. S d d') T d r w.db
        → Outcome
            (λ d _ d'. S d d')
            T
            d
            (continue r (λ _. pure b) w).0
            (continue r (λ _. pure b) w).1.db
    go d (ok a) w o = o
    go d (err e) w o = o
