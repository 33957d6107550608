-- ===== src/Store/Permissions/Requests.antt =====
-- What `record_permission_request` of store/tasks.rs does to the tables.
use opendaemon.Prelude.{String, ◌≡◌, refl, subst, ◌⊎◌, inl, inr, arith, Option, some, none, ok, err}
use opendaemon.Task.Model.{Task}
use opendaemon.Task.Event.{TaskEventType, PermissionRequestEvent, request_to_value}
use opendaemon.Store.World.{World, Db}
use opendaemon.Store.Exec.{◌>>=◌, call, now_rfc3339}
use opendaemon.Store.Logic.{
  Ensures, Reads-call, Reads-now_rfc3339, Ensures-read, Ensures-then, Ensures-write, Ensures-weaken,
}
use opendaemon.Store.Logic.Writes.{Ensures-of_cases}
use opendaemon.Store.Rows.{task_by_id, next_sequence_of, insert_event_row}
use opendaemon.Store.Tasks.{store, get, new_event, publish_stored}
use opendaemon.Store.Tasks.Reading.{Reads-get, Reads-publish_stored, event_at}
use opendaemon.Store.Permissions.{
  insert_request_row, new_request, insert_request, record_permission_request,
}

-- the rows after the transaction of `record_permission_request`
abbrev pub requested_rows : String → PermissionRequestEvent → String → Db → Option Db
requested_rows id request now d =
    elim (insert_event_row
      (new_event id (next_sequence_of id d) TaskEventType.provider_permission_requested
        (request_to_value request) now)
      d) [
        | none ↦ none
        | some d₁ ↦ insert_request_row (new_request id (next_sequence_of id d) request now) d₁
      ]

module _ (id : String) (request : PermissionRequestEvent) (now : String) where
  insert_request_cases :
      (w : World)
      → ((insert_request id request now w).0 ≡ err store)
          × ((insert_request id request now w).1.db ≡ w.db)
        ⊎ (((insert_request id request now w).0 ≡ ok (next_sequence_of id w.db))
            × (requested_rows id request now w.db ≡ some (insert_request id request now w).1.db))
  unfolding insert_request
  insert_request_cases w = ground arith

-- a pending request was recorded, with its event
abbrev pub Requested : String → PermissionRequestEvent → Db → Db → Type 0
Requested id request d d' =
    (now : String) × (t : Task) × (task_by_id id d ≡ some t)
    × (requested_rows id request now d ≡ some d')

-- `record_permission_request` adds the request and its event, or changes nothing; the event that
-- it returns is the row of that number.
pub record_permission_request_effect :
    (id : String) (request : PermissionRequestEvent)
    → Ensures
        (λ _. Unit)
        (λ d e d'. Requested id request d d' × (event_at id (next_sequence_of id d) d' ≡ some e))
        (Requested id request)
        (record_permission_request id request)
unfolding record_permission_request
record_permission_request_effect id request =
    (Ensures-read {Pre = λ _. Unit} (get id) _ (Reads-get id) λ t.
      Ensures-read (now_rfc3339 store) _ (Reads-now_rfc3339 store) λ now.
        Ensures-then (call store) _ (Reads-call store)
          (Ensures-then (call store) _ (Reads-call store) (finish t now)))
  where
    insert :
        (now : String)
        → Ensures
            (λ _. Unit)
            (λ d n d'. (n ≡ next_sequence_of id d) × (requested_rows id request now d ≡ some d'))
            (λ _ _. ⊥)
            (insert_request id request now)
    insert now = Ensures-of_cases (insert_request id request now) λ w.
        elim (insert_request_cases id request now w) [
          | inl (e, same) ↦ inl (store, e, same)
          | inr (e, rows) ↦ inr (next_sequence_of id w.db, e, (refl, rows))
        ]

    finish :
        (t : Task) (now : String)
        → Ensures
            (λ d. (Unit {0} × (task_by_id id d ≡ some t)) × Unit {0})
            (λ d e d'.
              Requested id request d d' × (event_at id (next_sequence_of id d) d' ≡ some e))
            (Requested id request)
            (insert_request id request now >>= λ sequence. publish_stored id sequence)
    finish t now =
        Ensures-weaken _ (λ d p. tt)
          (λ d e d' p h. ((now, t, p.0.1, h.1.1), subst (λ n. event_at id n d' ≡ some e) h.1.0 h.2))
          (λ d d' p h. (now, t, p.0.1, h.1.1))
          (Ensures-write (insert_request id request now) _ (insert now)
            (λ sequence. Reads-publish_stored id sequence))
