-- ===== src/Scheduler/Service/Retry.antt =====
-- A second call of `try_acquire_directory_lock` of scheduler/service.rs for a task that waits.
use opendaemon.Prelude.{ℕ, String, ◌≡◌, sym, subst, ap, ◌∙◌, some, find_passes, ok, eq_iff}
use mathlib.Core.Option.{some-injective}
use opendaemon.Task.Model.{Task, TaskStatus}
use opendaemon.Task.State.{◌⟶◌, wait}
use opendaemon.Scheduler.Locks.{LockRequest, LockDecision}
use opendaemon.Store.World.{World, Db}
use opendaemon.Store.Logic.{Outcome}
use opendaemon.Store.Rows.{task_by_id, has_id, replace_lock}
use opendaemon.Scheduler.Service.{try_acquire_directory_lock}
use opendaemon.Scheduler.Service.Waiting.{Waits}
use opendaemon.Scheduler.Service.Allocation.{
  Allocated, LeftBehind, at_capacity, no_lock_needed, got_lock, refused,
  try_acquire_directory_lock_effect,
}

no_second_wait :
    {s : TaskStatus}
    → s ≡ TaskStatus.waiting_directory_lock
    → s ⟶ TaskStatus.waiting_directory_lock
    → ⊥
no_second_wait h wait = cc

module _ (r : LockRequest) (t : Task) (waiting : t.status ≡ TaskStatus.waiting_directory_lock) where
  stuck :
      (u : Task) (why : String) (d d' : Db)
      → task_by_id r.task_id d ≡ some t
      → task_by_id r.task_id d ≡ some u
      → Waits u.id why d d'
      → ⊥
  stuck u why d d' found found' m =
      no_second_wait (ap (λ (x : Task). x.status) same ∙ waiting) m.edge
    where
      own : u.id ≡ r.task_id
      own = (eq_iff u.id r.task_id).0 (find_passes (has_id r.task_id) d.tasks u found')

      same : m.current ≡ t
      same = some-injective m.current t (sym m.found ∙ ap (λ i. task_by_id i d) own ∙ found)

  answer :
      (max : ℕ) (d : Db) (x : LockDecision) (d' : Db)
      → task_by_id r.task_id d ≡ some t
      → Allocated max r d x d'
      → x ≡ LockDecision.not_required
  unfolding replace_lock
  answer max d x d' found (at_capacity u f _ m _) = absurd (stuck u _ d d' found f m)
  answer max d x d' found (no_lock_needed u g _ _ _ _ _ e) = e
  answer max d x d' found (refused u g f _ _ _ m _) = absurd (stuck u _ d d' found f m)
  answer max d x d' found (got_lock u g d₁ f _ _ (now, _, e) m _) =
      absurd (stuck u _ d₁ d' (tasks ∙ found) (tasks ∙ f) m)
    where
      tasks : task_by_id r.task_id d₁ ≡ task_by_id r.task_id d
      tasks = ap (λ (y : Db). task_by_id r.task_id y) e

-- For a task that waits for its directory already, `try_acquire_directory_lock` never answers that
-- the lock was acquired, nor that the task waits: the only answer is that no lock is needed, and
-- in every other case the call fails.
pub waiting_task_never_acquires :
    (max : ℕ) (r : LockRequest) (t : Task) (w : World) (x : LockDecision)
    → t.status ≡ TaskStatus.waiting_directory_lock
    → task_by_id r.task_id w.db ≡ some t
    → (try_acquire_directory_lock max r w).0 ≡ ok x
    → x ≡ LockDecision.not_required
waiting_task_never_acquires max r t w x waiting found returned =
    answer r t waiting max w.db x (try_acquire_directory_lock max r w).1.db found (
      subst
        (λ y.
          Outcome (Allocated max r) (LeftBehind r) w.db y (try_acquire_directory_lock max r w).1.db)
        returned ((try_acquire_directory_lock_effect max r).at w tt))
