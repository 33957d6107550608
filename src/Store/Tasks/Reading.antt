-- ===== src/Store/Tasks/Reading.antt =====
-- The operations of store/tasks.rs that only read the tables.
use opendaemon.Prelude.{ℕ, String, ◌≡◌, Option, some, ap, sym, ◌∙◌, find, ◌==◌, ◌&&◌, arith}
use opendaemon.Task.Event.{TaskEvent}
use opendaemon.Store.World.{Db}
use opendaemon.Store.Exec.{query, required, call}
use opendaemon.Store.Logic.{
  Reads, Anything, Reads-bind, Reads-then, Reads-weaken, Reads-call, Reads-query, Reads-required,
  Reads-pure,
}
use opendaemon.Store.Rows.{task_by_id, next_sequence_of, of_task}
use opendaemon.Store.Tasks.{
  store, not_found, get, next_sequence, event_by_sequence, publish_if_configured, announce,
  publish_stored,
}

pub Reads-get : (id : String) → Reads (λ d t. task_by_id id d ≡ some t) (get id)
unfolding get
Reads-get id = Reads-then (call store) _ (Reads-call store) (
    Reads-weaken _ (λ d t h. ground arith)
      (Reads-bind (query store (task_by_id id)) (λ row. required not_found row)
        (Reads-query store (task_by_id id)) (Reads-required not_found)))

pub Reads-next_sequence :
    (id : String) → Reads (λ d n. n ≡ next_sequence_of id d) (next_sequence id)
unfolding next_sequence
Reads-next_sequence id =
    Reads-then (call store) _ (Reads-call store) (Reads-query store (next_sequence_of id))

-- what is published, and returned, is the row of that number
pub Reads-event_by_sequence :
    (id : String) (sequence : ℕ)
    → Reads
        (λ d e. find (λ e. of_task id e && e.sequence == sequence) d.task_events ≡ some e)
        (event_by_sequence id sequence)
unfolding event_by_sequence
Reads-event_by_sequence id sequence =
    Reads-weaken _ (λ d e h. ground arith)
      (Reads-bind _ (λ row. required store row) (Reads-query store _) (Reads-required store))

pub Reads-publish_if_configured : (e : TaskEvent) → Reads Anything (publish_if_configured e)
unfolding publish_if_configured
Reads-publish_if_configured e = record { same = λ w. ground arith; returns = λ w a h. tt }

abbrev pub event_at : String → ℕ → Db → Option TaskEvent
event_at id sequence d = find (λ e. of_task id e && e.sequence == sequence) d.task_events

pub Reads-announce :
    (id : String) (sequence : ℕ)
    → Reads (λ d e. event_at id sequence d ≡ some e) (announce id sequence)
unfolding announce
Reads-announce id sequence =
    Reads-weaken _ (λ d e h. h.1 ∙ ap some (sym h.2))
      (Reads-bind (event_by_sequence id sequence) _ (Reads-event_by_sequence id sequence)
        λ e. Reads-then (publish_if_configured e) _ (Reads-publish_if_configured e) (Reads-pure e))

pub Reads-publish_stored :
    (id : String) (sequence : ℕ)
    → Reads (λ d e. event_at id sequence d ≡ some e) (publish_stored id sequence)
unfolding publish_stored
Reads-publish_stored id sequence =
    Reads-then (call store) _ (Reads-call store) (Reads-announce id sequence)
