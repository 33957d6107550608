-- ===== src/Store/Steps/Exclusion.antt =====
-- The locks of a directory: one that excludes others is never held beside another lock, whatever
-- calls of store/tasks.rs have been made one after the other.
use opendaemon.Prelude.{
  String, Bool, true, false, not, ◌||◌, ◌≡◌, refl, sym, subst, ap, ◌∙◌, List, [], ◌∷◌, ◌++◌, select,
  select-append, any-append, update_where, Bool-cases, inl, inr, arith, eq_iff, str_eq,
}
use opendaemon.Scheduler.Locks.{DirectoryLock, LockMode, LockRequest, is_exclusive}
use opendaemon.Task.Model.{is_terminal}
use opendaemon.Store.World.{World, Db}
use opendaemon.Store.Rows
use opendaemon.Store.Rows.{held_in, held_by, release_held, replace_lock, same_key, update_result}
use opendaemon.Store.Locks.{locks_in, conflicts, held_lock}
use opendaemon.Store.Tasks.Rows.{created_rows_lem}
use opendaemon.Store.Steps.{Step, create, move, append, request, decide, acquire, save}
use opendaemon.Store.Steps.Operations.{Operation, perform, perform-keeps}

-- no two of the locks conflict: one of them is exclusive only if it is alone
abbrev pub AreCompatible : List DirectoryLock → Type 0
AreCompatible [] = Unit
AreCompatible (l ∷ ls) = (conflicts l.mode ls ≡ false) × AreCompatible ls

abbrev pub AllCompatible : Db → Type 0
AllCompatible d = (directory : String) → AreCompatible (locks_in directory d)

conflicts-select :
    (mode : LockMode) (p : DirectoryLock → Bool) (ls : List DirectoryLock)
    → conflicts mode ls ≡ false
    → conflicts mode (select p ls) ≡ false
conflicts-select mode p [] h = refl
conflicts-select mode p (l ∷ ls) h = ground (arith, conflicts-select mode p ls)

AreCompatible-select :
    (p : DirectoryLock → Bool) (ls : List DirectoryLock)
    → AreCompatible ls
    → AreCompatible (select p ls)
AreCompatible-select p [] h = tt
AreCompatible-select p (l ∷ ls) h =
    ground (arith, conflicts-select l.mode p ls, AreCompatible-select p ls)

AreCompatible-append :
    (ls : List DirectoryLock) (l : DirectoryLock)
    → AreCompatible ls
    → conflicts l.mode ls ≡ false
    → AreCompatible (ls ++ l ∷ [])
AreCompatible-append [] l h c = (refl, tt)
AreCompatible-append (k ∷ ls) l h c = ground (
  arith,
  any-append (λ j. is_exclusive k.mode || is_exclusive j.mode) ls (l ∷ []),
  AreCompatible-append ls l,
)

select-select_comm :
    (p q : DirectoryLock → Bool) (ls : List DirectoryLock)
    → select p (select q ls) ≡ select q (select p ls)
select-select_comm p q [] = refl
select-select_comm p q (l ∷ ls) = ground (arith, select-select_comm p q ls)

-- what is held in a directory when a task's locks are released: the locks of the other tasks
locks_in-release :
    (directory id now : String) (ls : List DirectoryLock)
    → select (held_in directory) (update_where (held_by id) (Rows.release now) ls)
      ≡ select (λ l. not (held_by id l)) (select (held_in directory) ls)
locks_in-release directory id now [] = refl
locks_in-release directory id now (l ∷ ls) = ground (arith, locks_in-release directory id now ls)

module _ (d d' : Db) (compatible : AllCompatible d) where
  same_locks : d'.directory_locks ≡ d.directory_locks → AllCompatible d'
  same_locks e directory =
      subst (λ ls. AreCompatible (select (held_in directory) ls)) (sym e) (compatible directory)

  after_release :
      (id now : String)
      → d'.directory_locks ≡ update_where (held_by id) (Rows.release now) d.directory_locks
      → AllCompatible d'
  after_release id now e directory =
      subst AreCompatible
        (sym
          (ap (select (held_in directory)) e ∙ locks_in-release directory id now d.directory_locks))
        (AreCompatible-select (λ l. not (held_by id l)) (locks_in directory d)
          (compatible directory))

  after_acquire :
      (r : LockRequest) (now : String)
      → conflicts r.mode (locks_in r.directory_id d) ≡ false
      → d' ≡ replace_lock (held_lock r now) d
      → AllCompatible d'
  unfolding replace_lock
  after_acquire r now free e directory =
      subst AreCompatible (sym split) (elim (Bool-cases (str_eq r.directory_id directory)) [
        | inl here ↦
            subst (λ l. AreCompatible (kept ++ l)) (sym (only here))
              (AreCompatible-append kept new (rest directory) (
                conflicts-select r.mode other (locks_in directory d) (
                  subst (λ i. conflicts r.mode (locks_in i d) ≡ false)
                    ((eq_iff r.directory_id directory).0 here) free)))
        | inr elsewhere ↦
            subst (λ l. AreCompatible (kept ++ l)) (sym (no_row elsewhere))
              (subst AreCompatible (sym (++-nil kept)) (rest directory))
      ])
    where
      new : DirectoryLock
      new = held_lock r now

      other : DirectoryLock → Bool
      other old = not (same_key new old)

      kept : List DirectoryLock
      kept = select other (locks_in directory d)

      rest : (directory : String) → AreCompatible (select other (locks_in directory d))
      rest directory = AreCompatible-select other (locks_in directory d) (compatible directory)

      split : locks_in directory d' ≡ kept ++ select (held_in directory) (new ∷ [])
      split =
          ap (λ (x : Db). locks_in directory x) e
          ∙ select-append (held_in directory) (select other d.directory_locks) (new ∷ [])
          ∙ ap (λ l. l ++ select (held_in directory) (new ∷ []))
              (select-select_comm (held_in directory) other d.directory_locks)

      only :
          str_eq r.directory_id directory ≡ true → select (held_in directory) (new ∷ []) ≡ new ∷ []
      only here = ground arith

      no_row : str_eq r.directory_id directory ≡ false → select (held_in directory) (new ∷ []) ≡ []
      no_row elsewhere = ground arith

      ++-nil : (l : List DirectoryLock) → l ++ [] ≡ l
      ++-nil [] = refl
      ++-nil (x ∷ l) = ap (λ r. x ∷ r) (++-nil l)

-- every step keeps the locks compatible
pub Step-AllCompatible : (d d' : Db) → Step d d' → AllCompatible d → AllCompatible d'
unfolding replace_lock release_held update_result
Step-AllCompatible d d' (create input (now, _, rows)) h =
    same_locks d d' h (created_rows_lem input now d d' rows).locks
Step-AllCompatible d d' (move id next payload m) h = elim (Bool-cases (is_terminal next)) [
  | inl ended ↦ after_release d d' h id m.now (m.rows.locks ∙ rw ended refl)
  | inr going ↦ same_locks d d' h (m.rows.locks ∙ rw going refl)
]
Step-AllCompatible d d' (append id event_type payload (now, t, _, rows)) h =
    same_locks d d' h (ground arith)
Step-AllCompatible d d' (request id r (now, t, _, rows)) h = same_locks d d' h (ground arith)
Step-AllCompatible d d' (decide id response (now, r, _, _, rows)) h =
    same_locks d d' h (ground arith)
Step-AllCompatible d d' (acquire r (now, free, e)) h = after_acquire d d' h r now free e
Step-AllCompatible d d' (Step.release id (now, e)) h =
    after_release d d' h id now (ap (λ (x : Db). x.directory_locks) e)
Step-AllCompatible d d' (save id result e) h =
    same_locks d d' h (ap (λ (x : Db). x.directory_locks) e)

-- Whatever calls are made one after the other, in any world, and whichever of them fail: where no
-- two locks that are held in one directory conflicted, none do.
pub locks_compatible :
    (ops : List Operation) (w : World)
    → AllCompatible w.db
    → (directory : String) → AreCompatible (locks_in directory (perform ops w).db)
locks_compatible ops w h = perform-keeps AllCompatible Step-AllCompatible ops w h
