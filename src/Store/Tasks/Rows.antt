-- ===== src/Store/Tasks/Rows.antt =====
-- The tables after `create` of store/tasks.rs, column by column.
use opendaemon.Prelude.{
  String, true, ◌≡◌, refl, ap, ◌∙◌, List, [], ◌∷◌, ◌++◌, some, any, arith, find, str_eq, eq_refl,
  any-append, false,
}
use opendaemon.Json.{empty_object}
use opendaemon.Task.Model.{Task, CreateTask}
use opendaemon.Task.Event.{TaskEventType, TaskEvent}
use opendaemon.Store.World.{Db}
use opendaemon.Store.Rows.{has_id, clashes, rename_last}
use opendaemon.Store.Tasks.{new_task, new_event}
use opendaemon.Store.Tasks.Effects.{created_rows, next_task_id, rowid_lem}

rename_last-append :
    (id : String) (ts : List Task) (t : Task)
    → rename_last id (ts ++ t ∷ []) ≡ ts ++ record t { id = id } ∷ []
rename_last-append id [] t = refl
rename_last-append id (u ∷ []) t = refl
rename_last-append id (u ∷ v ∷ ts) t = ap (λ l. u ∷ l) (rename_last-append id (v ∷ ts) t)

-- the new row, with its id
abbrev pub created_task : CreateTask → String → Db → Task
created_task input now d = record (new_task input now) { id = next_task_id d }

abbrev pub created_event : String → Db → TaskEvent
created_event now d = new_event (next_task_id d) 1 TaskEventType.queued empty_object now

pub record CreatedRows (input : CreateTask) (now : String) (d d' : Db) : Type 0 where
  pub tasks : d'.tasks ≡ d.tasks ++ created_task input now d ∷ []
  pub no_blank : any (has_id "") d.tasks ≡ false
  pub fresh : any (clashes (created_event now d)) d.task_events ≡ false
  pub events : d'.task_events ≡ d.task_events ++ created_event now d ∷ []
  pub locks : d'.directory_locks ≡ d.directory_locks
  pub requests : d'.task_permission_requests ≡ d.task_permission_requests

pub created_rows_lem :
    (input : CreateTask) (now : String) (d d' : Db)
    → created_rows input now d ≡ some d'
    → CreatedRows input now d d'
unfolding new_task
created_rows_lem input now d d' h =
    ground (
      arith,
      rowid_lem input now d,
      rename_last-append (next_task_id d) d.tasks (new_task input now),
    )

find_new :
    (id : String) (ts : List Task) (t : Task)
    → any (has_id id) ts ≡ false
    → str_eq t.id id ≡ true
    → find (has_id id) (ts ++ t ∷ []) ≡ some t
find_new id [] t h e = ground arith
find_new id (u ∷ ts) t h e = ground (arith, find_new id ts t)

-- the new row is the one that is found under the new id
pub created_task_found :
    (input : CreateTask) (now : String) (d d' : Db)
    → created_rows input now d ≡ some d'
    → find (has_id (next_task_id d)) d'.tasks ≡ some (created_task input now d)
unfolding new_task
created_task_found input now d d' h =
    ap (find (has_id (next_task_id d))) (created_rows_lem input now d d' h).tasks
    ∙ find_new (next_task_id d) d.tasks (created_task input now d) free (eq_refl (next_task_id d))
  where
    free : any (has_id (next_task_id d)) d.tasks ≡ false
    free = ground (
      arith,
      h,
      rowid_lem input now d,
      any-append (has_id (next_task_id d)) d.tasks (new_task input now ∷ []),
    )
