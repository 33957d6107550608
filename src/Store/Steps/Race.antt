-- ===== src/Store/Steps/Race.antt =====
-- Two calls of `acquire_lock` of store/tasks.rs at the same time: each reads the locks and inserts
-- its own on connections of its own, with no transaction around the two.
use opendaemon.Prelude.{
  ℕ, ◌+◌, String, Bool, true, false, not, ◌≡◌, refl, ap, ◌∙◌, List, [], ◌∷◌, ◌++◌, select, ok,
  arith, str_eq, eq_refl,
}
use opendaemon.Scheduler.Locks.{DirectoryLock, LockRequest}
use opendaemon.Store.World.{World, Db}
use opendaemon.Store.Exec.{Exec, pure, continue, ◌>>=◌, call, query, statement, now_rfc3339}
use opendaemon.Store.Rows.{held_in, replace_lock, same_key}
use opendaemon.Store.Locks.{
  locks_in, conflicts, held_lock, active_locks, acquire_unless, insert_lock,
}
use opendaemon.Store.Tasks.{Op}

-- both calls have read the locks before either inserts its own
unfoldable pub acquire_both : LockRequest → LockRequest → Op (Bool × Bool)
acquire_both r s = do
  seen_by_r ← active_locks r.directory_id
  seen_by_s ← active_locks s.directory_id
  got_r ← acquire_unless (conflicts r.mode seen_by_r) r
  got_s ← acquire_unless (conflicts s.mode seen_by_s) s
  pure (got_r, got_s)

select-none :
    (p q : DirectoryLock → Bool) (ls : List DirectoryLock)
    → select p ls ≡ []
    → select p (select q ls) ≡ []
select-none p q [] h = refl
select-none p q (l ∷ ls) h = ground (arith, select-none p q ls)

-- with no failure, reading the locks is two calls and inserting one is three
active_locks_lem :
    (id : String) (w : World)
    → ((n : ℕ) → w.fails n ≡ false)
    → active_locks id w ≡ (ok (locks_in id w.db), record w { calls = w.calls + 1 + 1 })
unfolding active_locks call query ◌>>=◌
active_locks_lem id w fine = rw (fine w.calls, fine (w.calls + 1)) refl

insert_lock_lem :
    (r : LockRequest) (w : World)
    → ((n : ℕ) → w.fails n ≡ false)
    → acquire_unless false r w ≡ (
      ok true,
      record w {
        calls = w.calls + 1 + 1 + 1;
        db = replace_lock (held_lock r (w.stamp w.calls)) w.db;
      },
    )
unfolding acquire_unless insert_lock call statement now_rfc3339 ◌>>=◌
insert_lock_lem r w fine = rw (fine w.calls, fine (w.calls + 1), fine (w.calls + 1 + 1)) refl

-- a first part that is known to return
then_ok :
    {E A B : Type 0} (m : Exec E A) (f : A → Exec E B) (a : A) (w w' : World)
    → m w ≡ (ok a, w')
    → (m >>= f) w ≡ f a w'
unfolding ◌>>=◌
then_ok m f a w w' h = ap (λ p. continue p.0 f p.1) h

both_held :
    (r s : LockRequest) (t u : String) (d : Db)
    → locks_in r.directory_id d ≡ []
    → s.directory_id ≡ r.directory_id
    → str_eq r.task_id s.task_id ≡ false
    → locks_in r.directory_id (replace_lock (held_lock s u) (replace_lock (held_lock r t) d))
      ≡ held_lock r t ∷ held_lock s u ∷ []
unfolding replace_lock
both_held r s t u d free same other =
    split (select (λ x. not (same_key (held_lock r t) x)) d.directory_locks) (
      select-none (held_in r.directory_id) (λ x. not (same_key (held_lock r t) x)) d.directory_locks
        free)
  where
    split :
        (ls : List DirectoryLock)
        → select (held_in r.directory_id) ls ≡ []
        → select (held_in r.directory_id) (
            select (λ x. not (same_key (held_lock s u) x)) (ls ++ held_lock r t ∷ [])
            ++ held_lock s u ∷ [])
          ≡ held_lock r t ∷ held_lock s u ∷ []
    split [] h = ground (arith, eq_refl r.directory_id)
    split (l ∷ ls) h = ground (arith, split ls)

-- Where two tasks ask for a directory in which no lock is held, and both read the locks before
-- either inserts its own, and no call of the database fails, both are given the lock and both
-- locks are then held, whether they are exclusive or not.
pub acquire_both_lem :
    (r s : LockRequest) (w : World)
    → ((n : ℕ) → w.fails n ≡ false)
    → locks_in r.directory_id w.db ≡ []
    → s.directory_id ≡ r.directory_id
    → str_eq r.task_id s.task_id ≡ false
    → ((acquire_both r s w).0 ≡ ok (true, true))
      × ((t u : String) × (locks_in r.directory_id (acquire_both r s w).1.db
            ≡ held_lock r t ∷ held_lock s u ∷ []))
unfolding acquire_both pure
acquire_both_lem r s w fine free same other = (
  ap (λ p. p.0) run,
  (
    w.stamp seen.calls,
    w.stamp got.calls,
    ap (λ p. locks_in r.directory_id p.1.db) run
        ∙ both_held r s (w.stamp seen.calls) (w.stamp got.calls) w.db free same other,
  ),
)
  where
    seen : World
    seen = record w { calls = w.calls + 1 + 1 + 1 + 1 }

    got : World
    got = record w {
      calls = seen.calls + 1 + 1 + 1;
      db = replace_lock (held_lock r (w.stamp seen.calls)) w.db;
    }

    both : World
    both = record w {
      calls = got.calls + 1 + 1 + 1;
      db = replace_lock (held_lock s (w.stamp got.calls)) got.db;
    }

    none_seen : locks_in s.directory_id w.db ≡ []
    none_seen = ap (λ i. locks_in i w.db) same ∙ free

    run : acquire_both r s w ≡ (ok (true, true), both)
    run =
        then_ok (active_locks r.directory_id) _ (locks_in r.directory_id w.db) w
          (record w { calls = w.calls + 1 + 1 }) (active_locks_lem r.directory_id w fine)
        ∙ then_ok (active_locks s.directory_id) _ (locks_in s.directory_id w.db)
            (record w { calls = w.calls + 1 + 1 }) seen
            (active_locks_lem s.directory_id (record w { calls = w.calls + 1 + 1 }) fine)
        ∙ then_ok (acquire_unless _ r) _ true seen got (
            ap (λ ls. acquire_unless (conflicts r.mode ls) r seen) free
            ∙ insert_lock_lem r seen fine)
        ∙ then_ok (acquire_unless _ s) _ true got both (
            ap (λ ls. acquire_unless (conflicts s.mode ls) s got) none_seen
            ∙ insert_lock_lem s got fine)
