-- ===== src/Store/Locks.antt =====
-- store/tasks.rs: the locks on directories. The proofs are below.
pub mod Effects
use opendaemon.Prelude.{
  String, Bool, true, false, ◌&&◌, ◌||◌, List, [], ◌∷◌, Option, none, any, select, str_eq,
  if◌then◌else◌, Result, ok,
}
use opendaemon.Scheduler.Locks.{DirectoryLock, LockMode, LockRequest, is_exclusive, held}
use opendaemon.Store.World.{Db}
use opendaemon.Store.Exec.{pure, ◌>>=◌, ◌>>◌, call, query, statement, now_rfc3339}
use opendaemon.Store.Rows.{held_in, replace_lock}
use opendaemon.Store.Tasks.{Op, store, connection, release_locks_tx}

abbrev pub locks_in : String → Db → List DirectoryLock
locks_in directory_id db = select (held_in directory_id) db.directory_locks

unfoldable pub active_locks : String → Op (List DirectoryLock)
active_locks directory_id = do connection; query store (locks_in directory_id)

-- the test of `acquire_lock`
abbrev pub conflicts : LockMode → List DirectoryLock → Bool
conflicts mode active = any (λ l. is_exclusive mode || is_exclusive l.mode) active

abbrev pub held_lock : LockRequest → String → DirectoryLock
held_lock request now = record {
  directory_id = request.directory_id;
  task_id = request.task_id;
  mode = request.mode;
  status = held;
  created_at = now;
  released_at = none;
}

-- the part of `acquire_lock` behind its test, on a connection of its own
unfoldable pub insert_lock : LockRequest → Op Bool
insert_lock request = do
  now ← now_rfc3339 store
  connection
  statement store (replace_lock (held_lock request now))
  pure true

unfoldable pub acquire_unless : Bool → LockRequest → Op Bool
acquire_unless true request = pure false
acquire_unless false request = insert_lock request

unfoldable pub acquire_lock : LockRequest → Op Bool
acquire_lock request = do
  active ← active_locks request.directory_id
  acquire_unless (conflicts request.mode active) request

unfoldable pub release_locks : String → Op (Unit {0})
release_locks task_id = do now ← now_rfc3339 store; connection; release_locks_tx task_id now
