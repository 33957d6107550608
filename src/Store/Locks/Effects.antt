-- ===== src/Store/Locks/Effects.antt =====
-- What `acquire_lock` and `release_locks` of store/tasks.rs do to the tables.
use opendaemon.Prelude.{String, Bool, true, false, ◌≡◌, List, inl, inr, Bool-cases, sym, subst, ap}
use opendaemon.Scheduler.Locks.{DirectoryLock, LockRequest}
use opendaemon.Store.World.{Db}
use opendaemon.Store.Exec.{pure, ◌>>=◌, call, statement, now_rfc3339}
use opendaemon.Store.Logic.{
  Reads, Ensures, Reads-then, Reads-call, Reads-query, Reads-pure, Reads-now_rfc3339, Ensures-read,
  Ensures-then, Ensures-write, Ensures-weaken, Ensures-of_Reads,
}
use opendaemon.Store.Logic.Writes.{Ensures-of_cases}
use opendaemon.Store.Rows.{replace_lock, release_held}
use opendaemon.Store.Tasks.{store, release_locks_tx}
use opendaemon.Store.Locks.{
  locks_in, active_locks, conflicts, held_lock, insert_lock, acquire_unless, acquire_lock,
  release_locks,
}

pub Reads-active_locks : (id : String) → Reads (λ d ls. ls ≡ locks_in id d) (active_locks id)
unfolding active_locks
Reads-active_locks id =
    Reads-then (call store) _ (Reads-call store) (Reads-query store (locks_in id))

-- one statement that always finds its rows
Ensures-statement :
    (f : Db → Db) → Ensures (λ _. Unit) (λ d _ d'. d' ≡ f d) (λ _ _. ⊥) (statement store f)
unfolding statement
Ensures-statement f = Ensures-of_cases (statement store f) λ w.
    elim (Bool-cases (w.fails w.calls)) [
      | inl e ↦ inl (store, rw e, rw e)
      | inr e ↦ inr (tt, rw e, rw e)
    ]

-- the lock that was asked for is held, where no lock that is held in its directory conflicts
abbrev pub Acquired : LockRequest → Db → Db → Type 0
Acquired request d d' =
    (now : String) × (conflicts request.mode (locks_in request.directory_id d) ≡ false)
    × (d' ≡ replace_lock (held_lock request now) d)

-- what an answer of `acquire_lock` means
abbrev pub Answered : LockRequest → Db → Bool → Db → Type 0
Answered request d true d' = Acquired request d d'
Answered request d false d' =
    (conflicts request.mode (locks_in request.directory_id d) ≡ true) × (d' ≡ d)

Ensures-acquire_unless :
    (request : LockRequest) (b : Bool)
    → Ensures
        (λ d. Unit {0} × (b ≡ conflicts request.mode (locks_in request.directory_id d)))
        (Answered request)
        (Acquired request)
        (acquire_unless b request)
unfolding acquire_unless insert_lock
Ensures-acquire_unless request true =
    Ensures-weaken _ (λ d p. p)
      (λ d b d' p h. subst (λ x. Answered request d x d') (sym h.1) (sym p.1, h.0)) (λ d d' p h. h)
      (Ensures-of_Reads (pure false) (Reads-pure false))
Ensures-acquire_unless request false =
    Ensures-read (now_rfc3339 store) _ (Reads-now_rfc3339 store)
      λ now. Ensures-then (call store) _ (Reads-call store) (finish now)
  where
    finish :
        (now : String)
        → Ensures
            (λ d.
              (Unit {0} × (false ≡ conflicts request.mode (locks_in request.directory_id d)))
              × Unit {0})
            (Answered request)
            (Acquired request)
            (statement store (replace_lock (held_lock request now)) >>= λ _. pure true)
    finish now =
        Ensures-weaken _ (λ d p. tt)
          (λ d b d' p h. subst (λ x. Answered request d x d') (sym h.2) (now, sym p.0.1, h.1))
          (λ d d' p h. (now, sym p.0.1, h.1))
          (Ensures-write (statement store (replace_lock (held_lock request now))) _
            (Ensures-statement (replace_lock (held_lock request now))) (λ _. Reads-pure true))

-- `acquire_lock` answers yes only where no held lock of the directory conflicts, and then holds
-- the lock; it answers no only where one does, and then changes nothing.
pub acquire_lock_effect :
    (request : LockRequest)
    → Ensures (λ _. Unit) (Answered request) (Acquired request) (acquire_lock request)
unfolding acquire_lock
acquire_lock_effect request =
    (Ensures-read {Pre = λ _. Unit} (active_locks request.directory_id) _
      (Reads-active_locks request.directory_id) decide)
  where
    decide :
        (active : List DirectoryLock)
        → Ensures
            (λ d. Unit {0} × (active ≡ locks_in request.directory_id d))
            (Answered request)
            (Acquired request)
            (acquire_unless (conflicts request.mode active) request)
    decide active =
        Ensures-weaken _ (λ d p. (tt, ap (conflicts request.mode) p.1)) (λ d b d' p h. h)
          (λ d d' p h. h) (Ensures-acquire_unless request (conflicts request.mode active))

abbrev pub Released : String → Db → Db → Type 0
Released task_id d d' = (now : String) × (d' ≡ release_held task_id now d)

-- `release_locks` releases all that the task holds, or changes nothing.
pub release_locks_effect :
    (task_id : String)
    → Ensures (λ _. Unit) (λ d _ d'. Released task_id d d') (λ _ _. ⊥) (release_locks task_id)
unfolding release_locks release_locks_tx
release_locks_effect task_id =
    (Ensures-read {Pre = λ _. Unit} (now_rfc3339 store) _ (Reads-now_rfc3339 store)
      λ now. Ensures-then (call store) _ (Reads-call store) (finish now))
  where
    finish :
        (now : String)
        → Ensures
            (λ d. Unit {0} × Unit {0})
            (λ d _ d'. Released task_id d d')
            (λ _ _. ⊥)
            (statement store (release_held task_id now))
    finish now =
        Ensures-weaken _ (λ d p. tt) (λ d u d' p h. (now, h)) (λ d d' p n. n)
          (Ensures-statement (release_held task_id now))
