-- ===== src/Scheduler/Service/Allocation.antt =====
-- What `try_acquire_directory_lock` of scheduler/service.rs answers and does.
use opendaemon.Prelude.{
  ℕ, String, Bool, true, false, ◌≡◌, sym, subst, ap, ◌∙◌, ◌⊎◌, inl, inr, some, leb, Bool-cases,
}
use opendaemon.Security.{DirectoryGrant}
use opendaemon.Task.Model.{Task}
use opendaemon.Scheduler.Locks.{LockRequest, LockMode, LockDecision, mode_for_capabilities}
use opendaemon.Store.World.{Db}
use opendaemon.Store.Exec.{pure}
use opendaemon.Store.Logic.{
  Reads-pure, Reads-map_err, Ensures, Ensures-read, Ensures-weaken, Ensures-failure,
  Ensures-of_Reads,
}
use opendaemon.Store.Logic.Writes.{Ensures-bind, Ensures-map_err}
use opendaemon.Store.Rows.{task_by_id}
use opendaemon.Store.Tasks.Reading.{Reads-get}
use opendaemon.Store.Locks.{locks_in, conflicts}
use opendaemon.Store.Locks.Effects.{Acquired, Answered, acquire_lock_effect}
use opendaemon.Store.Grants
use opendaemon.Store.Grants.{grant_by_id}
use opendaemon.Store.Grants.Effects
use opendaemon.Scheduler.Errors.{map_directory_error, from_store_error}
use opendaemon.Scheduler.Service.{
  is_none_mode, report_lock, lock_in_mode, allocate, allocate_below_capacity,
  try_acquire_directory_lock,
}
use opendaemon.Scheduler.Service.Waiting.{active_count, Waits, Reads-count, Ensures-wait}

abbrev reason : Bool → String
reason true = "directory_lock_acquired"
reason false = "directory_lock"

abbrev decision_for : Bool → LockDecision
decision_for true = LockDecision.acquired
decision_for false = LockDecision.waiting

Ensures-report_lock :
    (id : String) (b : Bool)
    → Ensures
        (λ _. Unit)
        (λ d x d'. Waits id (reason b) d d' × (x ≡ decision_for b))
        (Waits id (reason b))
        (report_lock id b)
unfolding report_lock
Ensures-report_lock id true = Ensures-wait id "directory_lock_acquired" LockDecision.acquired
Ensures-report_lock id false = Ensures-wait id "directory_lock" LockDecision.waiting

-- the lock in the mode that the task's capabilities and the grant's policy ask for
abbrev pub mode_of : Task → DirectoryGrant → LockMode
mode_of t g = mode_for_capabilities t.required_capabilities g.lock_policy

abbrev pub in_mode : LockRequest → Task → DirectoryGrant → LockRequest
in_mode r t g = record r { mode = mode_of t g }

-- what an answer means
pub data Allocated (max : ℕ) (r : LockRequest) (d : Db) (x : LockDecision) (d' : Db) : Type 0 where
  at_capacity :
      (t : Task)
      → task_by_id r.task_id d ≡ some t
      → leb max (active_count d) ≡ true
      → Waits t.id "global_capacity" d d'
      → x ≡ LockDecision.waiting
      → Allocated max r d x d'
  no_lock_needed :
      (t : Task) (g : DirectoryGrant)
      → task_by_id r.task_id d ≡ some t
      → grant_by_id r.directory_id d ≡ some g
      → leb max (active_count d) ≡ false
      → is_none_mode (mode_of t g) ≡ true
      → d' ≡ d
      → x ≡ LockDecision.not_required
      → Allocated max r d x d'
  got_lock :
      (t : Task) (g : DirectoryGrant) (d₁ : Db)
      → task_by_id r.task_id d ≡ some t
      → grant_by_id r.directory_id d ≡ some g
      → leb max (active_count d) ≡ false
      → Acquired (in_mode r t g) d d₁
      → Waits t.id "directory_lock_acquired" d₁ d'
      → x ≡ LockDecision.acquired
      → Allocated max r d x d'
  refused :
      (t : Task) (g : DirectoryGrant)
      → task_by_id r.task_id d ≡ some t
      → grant_by_id r.directory_id d ≡ some g
      → leb max (active_count d) ≡ false
      → conflicts (mode_of t g) (locks_in r.directory_id d) ≡ true
      → Waits t.id "directory_lock" d d'
      → x ≡ LockDecision.waiting
      → Allocated max r d x d'

-- what a failure may have left done: the lock without the task's waiting, its waiting, or both
pub data LeftBehind (r : LockRequest) (d d' : Db) : Type 0 where
  lock_only : (t : Task) (g : DirectoryGrant) → Acquired (in_mode r t g) d d' → LeftBehind r d d'
  lock_and_wait :
      (t : Task) (g : DirectoryGrant) (why : String) (d₁ : Db)
      → Acquired (in_mode r t g) d d₁
      → Waits t.id why d₁ d'
      → LeftBehind r d d'
  wait_only : (t : Task) (why : String) → Waits t.id why d d' → LeftBehind r d d'

-- what is known when the lock is asked for
abbrev Known : ℕ → LockRequest → Task → DirectoryGrant → Db → Type 0
Known max r t g d =
    (task_by_id r.task_id d ≡ some t)
    × (leb max (active_count d) ≡ false)
    × (grant_by_id r.directory_id d ≡ some g)

Ensures-lock_in_mode :
    (max : ℕ) (r : LockRequest) (t : Task) (g : DirectoryGrant)
    → Ensures (Known max r t g) (Allocated max r) (LeftBehind r) (lock_in_mode r t (mode_of t g))
unfolding lock_in_mode
Ensures-lock_in_mode max r t g = Ensures-failure _ left (
    Ensures-weaken _ (λ d p. tt) answered (λ d d' p h. h)
      (Ensures-bind {Pre = λ _. Unit} _ (report_lock t.id)
        (Ensures-map_err from_store_error _ (acquire_lock_effect (in_mode r t g)))
        (Ensures-report_lock t.id)))
  where
    answered :
        (d : Db) (x : LockDecision) (d' : Db)
        → Known max r t g d
        → (b : Bool) × (d₁ : Db) × Answered (in_mode r t g) d b d₁
          × (Waits t.id (reason b) d₁ d' × (x ≡ decision_for b))
        → Allocated max r d x d'
    answered d x d' k (true, d₁, got, (m, e)) = got_lock t g d₁ k.0 k.2 k.1 got m e
    answered d x d' k (false, d₁, (conflict, same), (m, e)) =
        refused t g k.0 k.2 k.1 conflict (subst (λ y. Waits t.id "directory_lock" y d') same m) e

    left :
        (d d' : Db)
        → Known max r t g d
        → Acquired (in_mode r t g) d d'
          ⊎ ((b : Bool) × (d₁ : Db) × Answered (in_mode r t g) d b d₁
              × ((d' ≡ d₁) ⊎ Waits t.id (reason b) d₁ d'))
        → (d' ≡ d) ⊎ LeftBehind r d d'
    left d d' k (inl got) = inr (lock_only t g got)
    left d d' k (inr (true, d₁, got, inl e)) =
        inr (lock_only t g (subst (Acquired (in_mode r t g) d) (sym e) got))
    left d d' k (inr (true, d₁, got, inr m)) = inr (lock_and_wait t g _ d₁ got m)
    left d d' k (inr (false, d₁, (conflict, same), inl e)) = inl (e ∙ same)
    left d d' k (inr (false, d₁, (conflict, same), inr m)) =
        inr (wait_only t _ (subst (λ y. Waits t.id "directory_lock" y d') same m))

Ensures-allocate :
    (max : ℕ) (r : LockRequest) (t : Task) (g : DirectoryGrant)
    → Ensures (Known max r t g) (Allocated max r) (LeftBehind r) (allocate r t g)
unfolding allocate
Ensures-allocate max r t g = elim (Bool-cases (is_none_mode (mode_of t g))) [
  | inl e ↦ rw e (
      Ensures-weaken _ (λ d k. k) (λ d x d' k h. no_lock_needed t g k.0 k.2 k.1 e h.0 h.1)
        (λ d d' k h. h)
        (Ensures-of_Reads (pure LockDecision.not_required) (Reads-pure LockDecision.not_required)))
  | inr e ↦ rw e (Ensures-lock_in_mode max r t g)
]

Ensures-allocate_below_capacity :
    (max : ℕ) (r : LockRequest) (t : Task) (full : Bool)
    → Ensures
        (λ d. (task_by_id r.task_id d ≡ some t) × (leb max (active_count d) ≡ full))
        (Allocated max r)
        (LeftBehind r)
        (allocate_below_capacity full r t)
unfolding allocate_below_capacity
Ensures-allocate_below_capacity max r t true =
    Ensures-weaken _ (λ d p. tt) (λ d x d' p h. at_capacity t p.0 p.1 h.0 h.1)
      (λ d d' p h. wait_only t "global_capacity" h)
      (Ensures-wait t.id "global_capacity" LockDecision.waiting)
Ensures-allocate_below_capacity max r t false =
    Ensures-read _ _ (Reads-map_err map_directory_error _ (Grants.Effects.Reads-get r.directory_id))
      λ g.
        Ensures-weaken _ (λ d p. (p.0.0, p.0.1, p.1)) (λ d x d' p h. h) (λ d d' p h. h)
          (Ensures-allocate max r t g)

-- `try_acquire_directory_lock` answers that the task waits where as many tasks are active as may
-- be, or where a held lock conflicts, and then only sets the task to wait; it answers that the
-- task has the lock only below that number and without a conflict, and then the lock is held in
-- the mode of the task's capabilities, and the task is set to wait; and it answers that no lock is
-- needed only where the grant's policy asks for none, and then changes nothing. A failure leaves
-- nothing done, or the lock, or the waiting, or both.
pub try_acquire_directory_lock_effect :
    (max : ℕ) (r : LockRequest)
    → Ensures (λ _. Unit) (Allocated max r) (LeftBehind r) (try_acquire_directory_lock max r)
unfolding try_acquire_directory_lock
try_acquire_directory_lock_effect max r =
    Ensures-read {Pre = λ _. Unit} _ _ (Reads-map_err from_store_error _ (Reads-get r.task_id)) λ t.
      Ensures-read _ _ Reads-count λ n.
        Ensures-weaken _ (λ d p. (p.0.1, ap (leb max) (sym p.1))) (λ d x d' p h. h) (λ d d' p h. h)
          (Ensures-allocate_below_capacity max r t (leb max n))
