-- ===== src/Scheduler/Service/Contract.antt =====
-- What each operation of scheduler/service.rs promises.
use opendaemon.Prelude.{
  String, false, ◌≡◌, sym, subst, ◌⊎◌, inl, inr, [], some, none, Result, ok, err,
}
use opendaemon.Json.{empty_object}
use opendaemon.Task.Model.{Task, TaskStatus}
use opendaemon.Store.World.{Db}
use opendaemon.Store.Logic.{Outcome, Reads-map_err, Ensures, Ensures-read, Ensures-weaken}
use opendaemon.Store.Logic.Writes.{Ensures-bind, Ensures-map_err}
use opendaemon.Store.Rows.{task_by_id}
use opendaemon.Store.Tasks
use opendaemon.Store.Tasks.Reading.{Reads-get}
use opendaemon.Store.Tasks.Moves.{Moved}
use opendaemon.Store.Tasks.Effects.{SavedResult, save_result_effect}
use opendaemon.Store.Locks.Effects.{release_locks_effect}
use opendaemon.Scheduler.Errors.{TaskValidationError, from_store_error}
use opendaemon.Scheduler.Service
use opendaemon.Scheduler.Service.{
  Op, Preparer, filled, payload, transition, is_ended, is_waiting, mark_preparing_if, prepared,
}
use opendaemon.Scheduler.Service.Admission.{Reads-unless, enqueue_task_effect}
use opendaemon.Scheduler.Service.Allocation.{try_acquire_directory_lock_effect}
use opendaemon.Scheduler.Service.Preserves.{Call}
use opendaemon.Scheduler.Service.Promises.{
  Reached, Done, Left, Ensures-transition, Ensures-then_pure,
}
use opendaemon.Scheduler.Service.Preparing.{Ensures-prepare_workspace}

abbrev void : {A E : Type 0} → Result A E → Result (Unit {0}) E
void (ok a) = ok tt
void (err e) = err e

abbrev forget : {A : Type 0} → Op A → Op (Unit {0})
forget m w = let (r, w') = m w in (void r, w')

Ensures-forget :
    {A : Type 0} {S : Db → Db → Type 0} {T : Db → Db → Type 0} (m : Op A)
    → Ensures (λ _. Unit) (λ d _ d'. S d d') T m
    → Ensures (λ _. Unit) (λ d _ d'. S d d') T (forget m)
Ensures-forget {A} {S} {T} m h = record { at = λ w p. go w.db (m w).0 (m w).1.db (h.at w p) }
  where
    go :
        (d : Db) (r : Result A TaskValidationError) (d' : Db)
        → Outcome (λ d _ d'. S d d') T d r d'
        → Outcome (λ d _ d'. S d d') T d (void r) d'
    go d (ok a) d' o = o
    go d (err e) d' o = o

module _ (id : String) where
  Ensures-cancel_task :
      Ensures
        (λ _. Unit)
        (λ d _ d'.
          (t : Task) × (task_by_id id d ≡ some t)
          × (is_ended t.status ≡ false)
          × Reached id TaskStatus.cancelled empty_object d d')
        (λ d d'.
          (t : Task) × (task_by_id id d ≡ some t)
          × (is_ended t.status ≡ false)
          × Moved id TaskStatus.cancelled empty_object d d')
        (Service.cancel_task id)
  unfolding Service.cancel_task Tasks.cancel
  Ensures-cancel_task =
      Ensures-read {Pre = λ _. Unit} _ _ (Reads-map_err from_store_error _ (Reads-get id)) λ t.
        Ensures-read _ _ (Reads-unless (is_ended t.status) _) λ u.
          Ensures-weaken _ (λ d q. tt) (λ d v d' q h. (t, q.0.1, q.1, h))
            (λ d d' q h. (t, q.0.1, q.1, h)) (Ensures-transition id TaskStatus.cancelled none)

  Ensures-complete_task :
      (message : String)
      → Ensures
          (λ _. Unit)
          (λ d _ d'.
            (d₁ : Db) × Reached id TaskStatus.completed empty_object d d₁
            × SavedResult id message [] d₁ d')
          (λ d d'.
            Moved id TaskStatus.completed empty_object d d'
            ⊎ Reached id TaskStatus.completed empty_object d d')
          (Service.complete_task id message)
  unfolding Service.complete_task
  Ensures-complete_task message =
      Ensures-weaken _ (λ d u. tt)
        (λ d t d' u h. let (a, d₁, reached, saved) = h in (d₁, reached, saved)) left
        (Ensures-bind {Pre = λ _. Unit} _ _ (Ensures-transition id TaskStatus.completed none) λ t.
          Ensures-then_pure _ t
            (Ensures-map_err from_store_error _ (save_result_effect id message [])))
    where
      left :
          (d d' : Db)
          → Unit {0}
          → Moved id TaskStatus.completed empty_object d d'
            ⊎ ((t : Task) × (d₁ : Db) × Reached id TaskStatus.completed empty_object d d₁
                × ((d' ≡ d₁) ⊎ ⊥))
          → Moved id TaskStatus.completed empty_object d d'
            ⊎ Reached id TaskStatus.completed empty_object d d'
      left d d' p (inl m) = inl m
      left d d' p (inr (t, d₁, reached, inl same)) =
          inr (subst (Reached id _ _ d) (sym same) reached)
      left d d' p (inr (t, d₁, reached, inr n)) = absurd n

module _ {Workspace Error : Type 0} where
  unfoldable pub run_call : Call Workspace Error → Op (Unit {0})
  run_call (Call.enqueue_task input) = forget (Service.enqueue_task input)
  run_call (Call.try_acquire_directory_lock max r) =
      forget (Service.try_acquire_directory_lock max r)
  run_call (Call.prepare_workspace id prepare) = forget (Service.prepare_workspace id prepare)
  run_call (Call.mark_preparing id) = forget (Service.mark_preparing id)
  run_call (Call.mark_running id) = forget (Service.mark_running id)
  run_call (Call.cancel_task id) = forget (Service.cancel_task id)
  run_call (Call.release_locks id) = forget (Service.release_locks id)
  run_call (Call.complete_task id message) = forget (Service.complete_task id message)
  run_call (Call.fail_task id error) = forget (Service.fail_task id error)

  -- What the operations of the scheduler promise. Where a call returns, it has done what `Done` says:
  -- a task was stored that may be let in; the lock was decided on; the workspace was prepared for a
  -- task that was set to preparing if it waited; the task has the status that the call is named for,
  -- and for `complete_task` the result too; the task's locks were released. Where it fails, nothing
  -- changed, or what `Left` says: a part of that, or, where the preparer failed, the task failed.
  pub run_call-Done :
      (c : Call Workspace Error) → Ensures (λ _. Unit) (λ d _ d'. Done c d d') (Left c) (run_call c)
  unfolding run_call Service.mark_preparing Service.mark_running Service.fail_task
      Service.release_locks
  run_call-Done (Call.enqueue_task input) = Ensures-forget _ (
      Ensures-weaken _ (λ d u. tt) (λ d t d' u h. let (a, now, e, rows) = h in (a, now, rows))
        (λ d d' u h. h) (enqueue_task_effect input))
  run_call-Done (Call.try_acquire_directory_lock max r) = Ensures-forget _ (
      Ensures-weaken _ (λ d u. tt) (λ d x d' u h. (x, h)) (λ d d' u h. h)
        (try_acquire_directory_lock_effect max r))
  run_call-Done (Call.prepare_workspace id prepare) =
      Ensures-forget _ (Ensures-prepare_workspace id prepare)
  run_call-Done (Call.mark_preparing id) =
      Ensures-forget _ (Ensures-transition id TaskStatus.preparing none)
  run_call-Done (Call.mark_running id) =
      Ensures-forget _ (Ensures-transition id TaskStatus.running none)
  run_call-Done (Call.cancel_task id) = Ensures-forget _ (Ensures-cancel_task id)
  run_call-Done (Call.release_locks id) =
      Ensures-forget _ (Ensures-map_err from_store_error _ (release_locks_effect id))
  run_call-Done (Call.complete_task id message) =
      Ensures-forget _ (Ensures-complete_task id message)
  run_call-Done (Call.fail_task id error) =
      Ensures-forget _ (Ensures-transition id TaskStatus.failed (some (payload "error" error)))
