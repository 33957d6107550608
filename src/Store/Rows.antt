-- ===== src/Store/Rows.antt =====
-- The statements of store/tasks.rs on the tables, each a function of the rows.
use Prim.Native.Nat.{max}
use Prim.Native.String.{◌++◌ as concat}
use opendaemon.Prelude.{
  ℕ, ◌+◌, String, Bool, true, false, ◌&&◌, ◌||◌, not, ◌==◌, ltb, List, [], ◌∷◌, ◌++◌, Option, none,
  some, any, select, find, update_where, length, str_eq, if◌then◌else◌,
}
use opendaemon.Text.Decimal.{show}
use opendaemon.Task.Model.{Task, TaskStatus, TaskResult, status_eq}
use opendaemon.Task.Event.{TaskEvent, TaskEventType}
use opendaemon.Scheduler.Locks.{DirectoryLock, is_held, released}
use opendaemon.Store.World.{Db}

-- `event_type_for_status`
unfoldable pub event_type_for_status : TaskStatus → TaskEventType
event_type_for_status TaskStatus.queued = TaskEventType.queued
event_type_for_status TaskStatus.waiting_directory_lock = TaskEventType.waiting_directory_lock
event_type_for_status TaskStatus.preparing = TaskEventType.preparing
event_type_for_status TaskStatus.running = TaskEventType.running
event_type_for_status TaskStatus.completed = TaskEventType.completed
event_type_for_status TaskStatus.failed = TaskEventType.failed
event_type_for_status TaskStatus.cancelled = TaskEventType.cancelled
event_type_for_status TaskStatus.timed_out = TaskEventType.timed_out

-- `COALESCE(column, timestamp_if(condition, now))`
abbrev pub coalesce_if : Option String → Bool → String → Option String
coalesce_if (some t) condition now = some t
coalesce_if none true now = some now
coalesce_if none false now = none

-- `WHERE id = ?`
abbrev pub has_id : String → Task → Bool
has_id id t = str_eq t.id id

abbrev pub task_by_id : String → Db → Option Task
task_by_id id db = find (has_id id) db.tasks

-- the columns that `UPDATE tasks` sets in `transition`
abbrev pub set_status : TaskStatus → String → Task → Task
set_status next now t = record t {
  status = next;
  updated_at = now;
  started_at = coalesce_if t.started_at (status_eq next TaskStatus.running) now;
  completed_at = coalesce_if t.completed_at (status_eq next TaskStatus.completed) now;
  cancelled_at = coalesce_if t.cancelled_at (status_eq next TaskStatus.cancelled) now;
  failed_at =
      coalesce_if t.failed_at
        (status_eq next TaskStatus.failed || status_eq next TaskStatus.timed_out) now;
}

unfoldable pub update_status : String → TaskStatus → String → Db → Db
update_status id next now db = record db {
  tasks = update_where (has_id id) (set_status next now) db.tasks;
}

unfoldable pub update_result : String → TaskResult → Db → Db
update_result id result db = record db {
  tasks =
      update_where (has_id id)
        (λ t. record t { result = some result; updated_at = result.updated_at }) db.tasks;
}

abbrev pub of_task : String → TaskEvent → Bool
of_task id e = str_eq e.task_id id

-- `MAX(sequence)` over the rows of a task, 0 if there are none
abbrev pub max_sequence : String → List TaskEvent → ℕ
max_sequence id [] = 0
max_sequence id (e ∷ es) =
    let rest = max_sequence id es in if of_task id e then max e.sequence rest else rest

-- `COALESCE(MAX(sequence), 0) + 1`
unfoldable pub next_sequence_of : String → Db → ℕ
next_sequence_of id db = max_sequence id db.task_events + 1

-- `format!("evt_{task_id}_{sequence}")`
unfoldable pub event_id : String → ℕ → String
event_id task_id sequence = concat "evt_" (concat task_id (concat "_" (show sequence)))

-- the `PRIMARY KEY` and `UNIQUE(task_id, sequence)` of task_events
abbrev pub clashes : TaskEvent → TaskEvent → Bool
clashes new old = str_eq old.id new.id || of_task new.task_id old && old.sequence == new.sequence

abbrev pub insert_event_row : TaskEvent → Db → Option Db
insert_event_row e db =
    if any (clashes e) db.task_events
    then none
    else some (record db { task_events = db.task_events ++ e ∷ [] })

-- `UPDATE directory_locks SET status = 'released' … WHERE task_id = ? AND status = 'held'`
abbrev pub release : String → DirectoryLock → DirectoryLock
release now l = record l { status = released; released_at = some now }

abbrev pub held_by : String → DirectoryLock → Bool
held_by task_id l = str_eq l.task_id task_id && is_held l.status

unfoldable pub release_held : String → String → Db → Db
release_held task_id now db = record db {
  directory_locks = update_where (held_by task_id) (release now) db.directory_locks;
}

-- the rows that `INSERT OR REPLACE` leaves: the primary key is (directory_id, task_id)
abbrev pub same_key : DirectoryLock → DirectoryLock → Bool
same_key new old = str_eq old.directory_id new.directory_id && str_eq old.task_id new.task_id

unfoldable pub replace_lock : DirectoryLock → Db → Db
replace_lock l db = record db {
  directory_locks = select (λ old. not (same_key l old)) db.directory_locks ++ l ∷ [];
}

abbrev pub held_in : String → DirectoryLock → Bool
held_in directory_id l = str_eq l.directory_id directory_id && is_held l.status

-- the row that `create` inserts, its id still empty, and the `UPDATE` of the id by rowid: rows are
-- never deleted from `tasks`, so the new rowid is the number of rows and the new row is the last
abbrev pub insert_task_row : Task → Db → Option Db
insert_task_row t db =
    if any (has_id t.id) db.tasks then none else some (record db { tasks = db.tasks ++ t ∷ [] })

abbrev pub last_insert_rowid : Db → ℕ
last_insert_rowid db = length db.tasks

-- `format!("task_{row_id}")`
unfoldable pub task_id_of : ℕ → String
task_id_of row_id = concat "task_" (show row_id)

abbrev pub rename_last : String → List Task → List Task
rename_last id [] = []
rename_last id (t ∷ []) = record t { id = id } ∷ []
rename_last id (t ∷ u ∷ ts) = t ∷ rename_last id (u ∷ ts)

abbrev pub set_last_id : String → Db → Option Db
set_last_id id db =
    if any (has_id id) db.tasks then none else some (record db { tasks = rename_last id db.tasks })

-- `TaskFilters`, and the test of `list`
pub record TaskFilters : Type 0 where
  pub owner_product_id : Option String
  pub agent_id : Option String
  pub directory_id : Option String
  pub status : Option TaskStatus

abbrev pub is_none_or : {A : Type 0} → Option A → (A → Bool) → Bool
is_none_or none p = true
is_none_or (some a) p = p a

unfoldable pub matches : TaskFilters → Task → Bool
matches filters task =
    is_none_or filters.owner_product_id (λ v. str_eq v task.owner_product_id)
    && is_none_or filters.agent_id (λ v. str_eq v task.agent_id)
    && is_none_or filters.directory_id (λ v. str_eq v task.directory_id)
    && is_none_or filters.status (λ v. status_eq v task.status)

-- `SELECT * FROM task_events WHERE task_id = ? AND sequence > ? ORDER BY sequence ASC`
abbrev insert_by_sequence : TaskEvent → List TaskEvent → List TaskEvent
insert_by_sequence e [] = e ∷ []
insert_by_sequence e (f ∷ fs) =
    let rest = insert_by_sequence e fs in if ltb f.sequence e.sequence then f ∷ rest else e ∷ f ∷ fs

abbrev pub order_by_sequence : List TaskEvent → List TaskEvent
order_by_sequence [] = []
order_by_sequence (e ∷ es) = insert_by_sequence e (order_by_sequence es)

unfoldable pub events_after : String → ℕ → Db → List TaskEvent
events_after task_id cursor db =
    order_by_sequence (select (λ e. of_task task_id e && ltb cursor e.sequence) db.task_events)
