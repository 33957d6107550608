-- ===== src/Store/Tasks/Effects.antt =====
-- What `create`, `append_event` and the saving of results of store/tasks.rs do to the tables.
use opendaemon.Prelude.{
  ℕ, String, ◌≡◌, refl, subst, ◌∙◌, List, Option, some, none, arith, ◌⊎◌, inl, inr, ok, err, length,
  length-append, Bool-cases, ◌+◌, [], ◌∷◌, ◌++◌,
}
use opendaemon.Json.{Value, empty_object}
use opendaemon.Task.Model
use opendaemon.Task.Model.{Task, TaskStatus, TaskResult, CreateTask}
use opendaemon.Task.Event.{TaskEventType}
use opendaemon.Store.World.{World, Db}
use opendaemon.Store.Exec.{◌>>=◌, call, now_rfc3339, statement}
use opendaemon.Store.Logic.{
  Ensures, Reads-then, Reads-call, Reads-now_rfc3339, Reads-lift, Reads-map_err, Ensures-read,
  Ensures-then, Ensures-write, Ensures-weaken,
}
use opendaemon.Store.Logic.Writes.{Ensures-of_cases}
use opendaemon.Store.Rows.{
  task_by_id, next_sequence_of, insert_event_row, insert_task_row, last_insert_rowid, task_id_of,
  set_last_id, update_result,
}
use opendaemon.Store.Tasks.Reading.{
  Reads-get, Reads-next_sequence, Reads-publish_stored, Reads-announce, event_at,
}
use opendaemon.Store.Tasks.{
  store, model, get, new_event, insert_event_tx, new_task, insert_task, create, append_event,
  next_sequence, announce, publish_stored, save_result, save_execution_result, plain_result,
}

-- the rows after the transaction of `create`
abbrev pub created_rows : CreateTask → String → Db → Option Db
created_rows input now d = elim (insert_task_row (new_task input now) d) [
  | none ↦ none
  | some d₁ ↦ elim (set_last_id (task_id_of (last_insert_rowid d₁)) d₁) [
    | none ↦ none
    | some d₂ ↦
        insert_event_row
          (new_event (task_id_of (last_insert_rowid d₁)) 1 TaskEventType.queued empty_object now) d₂
  ]
]

-- the id that the next task gets
abbrev pub next_task_id : Db → String
next_task_id d = task_id_of (length d.tasks + 1)

pub rowid_lem :
    (input : CreateTask) (now : String) (d : Db)
    → length (d.tasks ++ new_task input now ∷ []) ≡ length d.tasks + 1
rowid_lem input now d = length-append d.tasks (new_task input now ∷ []) ∙ omega arith

module _ (input : CreateTask) (now : String) where
  insert_task_cases :
      (w : World)
      → ((insert_task input now w).0 ≡ err store) × ((insert_task input now w).1.db ≡ w.db)
        ⊎ (((insert_task input now w).0 ≡ ok (next_task_id w.db))
            × (created_rows input now w.db ≡ some (insert_task input now w).1.db))
  unfolding insert_task
  insert_task_cases w = ground (arith, rowid_lem input now w.db)

  Ensures-insert_task :
      Ensures
        (λ _. Unit)
        (λ d id d'. (id ≡ next_task_id d) × (created_rows input now d ≡ some d'))
        (λ _ _. ⊥)
        (insert_task input now)
  Ensures-insert_task = Ensures-of_cases (insert_task input now) λ w. elim (insert_task_cases w) [
    | inl (e, same) ↦ inl (store, e, same)
    | inr (e, rows) ↦ inr (next_task_id w.db, e, (refl, rows))
  ]

-- a validated task was inserted, with its first event
abbrev pub Created : CreateTask → Db → Db → Type 0
Created input d d' =
    (now : String) × (Model.validate input ≡ ok tt) × (created_rows input now d ≡ some d')

-- `create` inserts the row and the event, or nothing; the task that it returns is the new row.
pub create_effect :
    (input : CreateTask)
    → Ensures
        (λ _. Unit)
        (λ d t d'. Created input d d' × (task_by_id (next_task_id d) d' ≡ some t))
        (Created input)
        (create input)
unfolding create
create_effect input =
    (Ensures-read {Pre = λ _. Unit} _ _ (Reads-map_err model _ (Reads-lift (Model.validate input)))
      λ u. Ensures-read (now_rfc3339 store) _ (Reads-now_rfc3339 store) λ now.
        Ensures-then (call store) _ (Reads-call store)
          (Ensures-then (call store) _ (Reads-call store) (finish u now)))
  where
    finish :
        (u : Unit {0}) (now : String)
        → Ensures
            (λ d. (Unit {0} × (Model.validate input ≡ ok u)) × Unit {0})
            (λ d t d'. Created input d d' × (task_by_id (next_task_id d) d' ≡ some t))
            (Created input)
            (insert_task input now >>= λ id. publish_stored id 1 >>= λ _. get id)
    finish u now =
        Ensures-weaken _ (λ d p. tt)
          (λ d t d' p h. ((now, p.0.1, h.1.1), subst (λ id. task_by_id id d' ≡ some t) h.1.0 h.2))
          (λ d d' p h. (now, p.0.1, h.1.1))
          (Ensures-write (insert_task input now) _ (Ensures-insert_task input now) λ id.
            Reads-then (publish_stored id 1) (get id) (Reads-publish_stored id 1) (Reads-get id))

-- one more event of a task that exists, with the next number
abbrev pub Appended : String → TaskEventType → Value → Db → Db → Type 0
Appended id event_type payload d d' =
    (now : String) × (t : Task) × (task_by_id id d ≡ some t)
    × (insert_event_row (new_event id (next_sequence_of id d) event_type payload now) d ≡ some d')

module _ (id : String) (sequence : ℕ) (event_type : TaskEventType) (payload : Value)
    (now : String) where
  insert_event_tx_cases :
      (w : World)
      → ((insert_event_tx id sequence event_type payload now w).0 ≡ err store)
          × ((insert_event_tx id sequence event_type payload now w).1.db ≡ w.db)
        ⊎ (((insert_event_tx id sequence event_type payload now w).0 ≡ ok tt)
            × (insert_event_row (new_event id sequence event_type payload now) w.db
                ≡ some (insert_event_tx id sequence event_type payload now w).1.db))
  unfolding insert_event_tx
  insert_event_tx_cases w = ground arith

  Ensures-insert_event_tx :
      Ensures
        (λ _. Unit)
        (λ d _ d'. insert_event_row (new_event id sequence event_type payload now) d ≡ some d')
        (λ _ _. ⊥)
        (insert_event_tx id sequence event_type payload now)
  Ensures-insert_event_tx =
      Ensures-of_cases (insert_event_tx id sequence event_type payload now) λ w.
        elim (insert_event_tx_cases w) [
          | inl (e, same) ↦ inl (store, e, same)
          | inr (e, rows) ↦ inr (tt, e, rows)
        ]

-- `append_event` adds one event, numbered next, to a task that exists, or changes nothing; the
-- event that it returns is the row of that number.
pub append_event_effect :
    (id : String) (event_type : TaskEventType) (payload : Value)
    → Ensures
        (λ _. Unit)
        (λ d e d'.
          Appended id event_type payload d d' × (event_at id (next_sequence_of id d) d' ≡ some e))
        (Appended id event_type payload)
        (append_event id event_type payload)
unfolding append_event
append_event_effect id event_type payload =
    (Ensures-read {Pre = λ _. Unit} (get id) _ (Reads-get id) λ t.
      Ensures-read (now_rfc3339 store) _ (Reads-now_rfc3339 store) λ now.
        Ensures-read (next_sequence id) _ (Reads-next_sequence id)
          λ sequence. Ensures-then (call store) _ (Reads-call store) (finish t now sequence))
  where
    finish :
        (t : Task) (now : String) (sequence : ℕ)
        → Ensures
            (λ d.
              ((Unit {0} × (task_by_id id d ≡ some t)) × Unit {0})
              × (sequence ≡ next_sequence_of id d))
            (λ d e d'.
              Appended id event_type payload d d'
              × (event_at id (next_sequence_of id d) d' ≡ some e))
            (Appended id event_type payload)
            (insert_event_tx id sequence event_type payload now >>= λ _. announce id sequence)
    finish t now sequence =
        Ensures-weaken _ (λ d p. tt)
          (λ d e d' p h. (
            (
              now,
              t,
              p.0.0.1,
              subst (λ n. insert_event_row (new_event id n event_type payload now) d ≡ some d') p.1
                  h.1,
            ),
            subst (λ n. event_at id n d' ≡ some e) p.1 h.2,
          ))
          (λ d d' p h. (
            now,
            t,
            p.0.0.1,
            subst (λ n. insert_event_row (new_event id n event_type payload now) d ≡ some d') p.1
                h.1,
          ))
          (Ensures-write (insert_event_tx id sequence event_type payload now) _
            (Ensures-insert_event_tx id sequence event_type payload now)
            (λ _. Reads-announce id sequence))

-- saving a result only touches that column, and `updated_at`, of that task
module _ (id : String) (result : TaskResult) where
  Ensures-update_result :
      Ensures
        (λ _. Unit)
        (λ d _ d'. d' ≡ update_result id result d)
        (λ _ _. ⊥)
        (statement store (update_result id result))
  unfolding statement
  Ensures-update_result = Ensures-of_cases (statement store (update_result id result)) λ w.
      elim (Bool-cases (w.fails w.calls)) [
        | inl e ↦ inl (store, rw e, rw e)
        | inr e ↦ inr (tt, rw e, rw e)
      ]

pub save_execution_result_effect :
    (result : TaskResult)
    → Ensures
        (λ _. Unit)
        (λ d _ d'. d' ≡ update_result result.task_id result d)
        (λ _ _. ⊥)
        (save_execution_result result)
unfolding save_execution_result
save_execution_result_effect result =
    (Ensures-then {Pre = λ _. Unit} (call store) _ (Reads-call store)
      (Ensures-update_result result.task_id result))

abbrev pub SavedResult : String → String → List String → Db → Db → Type 0
SavedResult id message files d d' =
    (t : Task) × (now : String) × (task_by_id id d ≡ some t)
    × (d' ≡ update_result id (plain_result t message files now) d)

-- `save_result` stores a result with the task's own status, or changes nothing.
pub save_result_effect :
    (id : String) (message : String) (files : List String)
    → Ensures
        (λ _. Unit)
        (λ d _ d'. SavedResult id message files d d')
        (λ _ _. ⊥)
        (save_result id message files)
unfolding save_result
save_result_effect id message files =
    (Ensures-read {Pre = λ _. Unit} (get id) _ (Reads-get id) λ t.
      Ensures-read (now_rfc3339 store) _ (Reads-now_rfc3339 store)
        λ now. Ensures-then (call store) _ (Reads-call store) (finish t now))
  where
    finish :
        (t : Task) (now : String)
        → Ensures
            (λ d. (Unit {0} × (task_by_id id d ≡ some t)) × Unit {0})
            (λ d _ d'. SavedResult id message files d d')
            (λ _ _. ⊥)
            (statement store (update_result id (plain_result t message files now)))
    finish t now =
        Ensures-weaken _ (λ d p. tt) (λ d u d' p h. (t, now, p.0.1, h)) (λ d d' p n. n)
          (Ensures-update_result id (plain_result t message files now))
