-- ===== src/Store/Tasks/Moves.antt =====
-- What `transition` of store/tasks.rs does to the tables: all of a change of status, or nothing.
use opendaemon.Prelude.{
  ℕ, String, ◌≡◌, [], ◌∷◌, ◌++◌, Option, some, none, any, update_where, unwrap_or, if◌then◌else◌,
  ok, err, arith, ◌⊎◌, inl, inr, subst, true, sym, ap, ◌∙◌, false,
}
use opendaemon.Json.{Value, empty_object}
use opendaemon.Task.Model.{Task, TaskStatus, is_terminal}
use opendaemon.Task.State.{
  TaskTransition, changed, idempotent, validate_transition, idempotent_same, ◌⟶◌,
  validate_transition_iff,
}
use opendaemon.Store.World.{World, Db}
use opendaemon.Store.Exec.{pure, ◌>>=◌, call, now_rfc3339}
use opendaemon.Store.Logic.{
  Ensures, Ensures-then, Reads-then, Reads-call, Reads-pure, Reads-now_rfc3339, Reads-lift,
  Reads-map_err, Ensures-read, Ensures-write, Ensures-weaken, Ensures-of_Reads,
}
use opendaemon.Store.Logic.Writes.{Ensures-of_cases}
use opendaemon.Store.Rows.{
  event_type_for_status, task_by_id, has_id, set_status, update_status, next_sequence_of,
  insert_event_row, clashes, release_held, held_by, release,
}
use opendaemon.Store.Tasks.Reading.{Reads-get, Reads-next_sequence, Reads-publish_stored}
use opendaemon.Store.Tasks.{
  store, new_event, get, next_sequence, publish_stored, change_status, move_task, follow,
  transition, state,
}

-- the rows after the transaction of `transition`
pub record Committed (id : String) (next : TaskStatus) (payload : Value) (now : String)
    (sequence : ℕ) (d d' : Db) : Type 0 where
  pub tasks : d'.tasks ≡ update_where (has_id id) (set_status next now) d.tasks
  pub events :
      d'.task_events
      ≡ d.task_events ++ new_event id sequence (event_type_for_status next) payload now ∷ []
  pub fresh :
      any (clashes (new_event id sequence (event_type_for_status next) payload now)) d.task_events
      ≡ false
  pub locks : d'.directory_locks ≡ (
      if is_terminal next
      then update_where (held_by id) (release now) d.directory_locks
      else d.directory_locks)
  pub requests : d'.task_permission_requests ≡ d.task_permission_requests
  pub grants : d'.directory_grants ≡ d.directory_grants
  pub profiles : d'.agent_profiles ≡ d.agent_profiles

-- a change of status along an edge of the diagram, with the next event number of its task
pub record Moved (id : String) (next : TaskStatus) (payload : Value) (d d' : Db) : Type 0 where
  pub current : Task
  pub now : String
  pub found : task_by_id id d ≡ some current
  pub edge : current.status ⟶ next
  pub rows : Committed id next payload now (next_sequence_of id d) d d'

-- the three statements of the transaction
abbrev committed_rows : String → TaskStatus → Value → String → ℕ → Db → Option Db
committed_rows id next payload now sequence d =
    elim (insert_event_row (new_event id sequence (event_type_for_status next) payload now)
      (update_status id next now d)) [
        | none ↦ none
        | some d' ↦ some (if is_terminal next then release_held id now d' else d')
      ]

module _ (id : String) (next : TaskStatus) (payload : Value) (now : String) (sequence : ℕ) where
  Committed-of_rows :
      (d d' : Db)
      → committed_rows id next payload now sequence d ≡ some d'
      → Committed id next payload now sequence d d'
  unfolding update_status release_held
  Committed-of_rows d d' h = ground arith

  change_status_cases :
      (w : World)
      → ((change_status id next payload now sequence w).0 ≡ err store)
          × ((change_status id next payload now sequence w).1.db ≡ w.db)
        ⊎ (((change_status id next payload now sequence w).0 ≡ ok tt)
            × (committed_rows id next payload now sequence w.db
                ≡ some (change_status id next payload now sequence w).1.db))
  unfolding change_status
  change_status_cases w = ground arith

  Ensures-change_status :
      Ensures
        (λ _. Unit)
        (λ d _ d'. Committed id next payload now sequence d d')
        (λ _ _. ⊥)
        (change_status id next payload now sequence)
  Ensures-change_status = Ensures-of_cases (change_status id next payload now sequence) λ w.
      elim (change_status_cases w) [
        | inl (e, same) ↦ inl (store, e, same)
        | inr (e, rows) ↦ inr (tt, e, Committed-of_rows w.db _ rows)
      ]

module _ (id : String) (next : TaskStatus) (payload : Value) where
  -- the effect of `move_task`, whatever the clock reads
  abbrev Advanced : Db → Db → Type 0
  Advanced d d' = (now : String) × Committed id next payload now (next_sequence_of id d) d d'

  Ensures-move_task :
      Ensures
        (λ _. Unit)
        (λ d t d'. Advanced d d' × (task_by_id id d' ≡ some t))
        Advanced
        (move_task id next payload)
  unfolding move_task
  Ensures-move_task = Ensures-read (now_rfc3339 store) _ (Reads-now_rfc3339 store) λ now.
      Ensures-read (next_sequence id) _ (Reads-next_sequence id) λ sequence.
        Ensures-then (call store) _ (Reads-call store)
          (Ensures-then (call store) _ (Reads-call store) (finish now sequence))
    where
      finish :
          (now : String) (sequence : ℕ)
          → Ensures
              (λ d. (Unit {0} × Unit {0}) × (sequence ≡ next_sequence_of id d))
              (λ d t d'. Advanced d d' × (task_by_id id d' ≡ some t))
              Advanced
              (change_status id next payload now sequence >>= λ _.
                publish_stored id sequence >>= λ _. get id)
      finish now sequence =
          Ensures-weaken _ (λ d p. tt) (λ d t d' p h. ((now, numbered d d' p.1 h.1), h.2))
            (λ d d' p h. (now, numbered d d' p.1 h.1))
            (Ensures-write (change_status id next payload now sequence) _
              (Ensures-change_status id next payload now sequence)
              λ _.
                Reads-then (publish_stored id sequence) (get id) (Reads-publish_stored id sequence)
                  (Reads-get id))
        where
          numbered :
              (d d' : Db)
              → sequence ≡ next_sequence_of id d
              → Committed id next payload now sequence d d'
              → Committed id next payload now (next_sequence_of id d) d d'
          numbered d d' e = subst (λ n. Committed id next payload now n d d') e

-- what a transition that returns `t` has done: the move, or, where the task was in that terminal
-- status already, nothing
pub data Transitioned (id : String) (next : TaskStatus) (payload : Value) (d : Db) (t : Task)
    (d' : Db) : Type 0 where
  stayed :
      task_by_id id d ≡ some t
      → t.status ≡ next
      → is_terminal next ≡ true
      → d' ≡ d
      → Transitioned id next payload d t d'
  moved :
      Moved id next payload d d' → task_by_id id d' ≡ some t → Transitioned id next payload d t d'

Ensures-follow :
    (id : String) (next : TaskStatus) (payload : Value) (current : Task) (verdict : TaskTransition)
    → Ensures
        (λ d.
          (Unit {0} × (task_by_id id d ≡ some current))
          × (validate_transition current.status next ≡ ok verdict))
        (Transitioned id next payload)
        (Moved id next payload)
        (follow id next payload current verdict)
unfolding follow
Ensures-follow id next payload current changed =
    Ensures-weaken _ (λ d p. tt) (λ d t d' p h. moved (move d d' p h.0) h.1)
      (λ d d' p h. move d d' p h) (Ensures-move_task id next payload)
  where
    move :
        (d d' : Db)
        → (Unit {0} × (task_by_id id d ≡ some current))
          × (validate_transition current.status next ≡ ok changed)
        → Advanced id next payload d d'
        → Moved id next payload d d'
    move d d' p h = record {
      current = current;
      now = h.0;
      found = p.0.1;
      edge = (validate_transition_iff current.status next).0 p.1;
      rows = h.1;
    }
Ensures-follow id next payload current idempotent =
    Ensures-weaken _ (λ d p. p)
      (λ d t d' p h.
        let (same, terminal) = idempotent_same current.status next p.1 in
        stayed (p.0.1 ∙ ap some (sym h.1)) (ap (λ (u : Task). u.status) h.1 ∙ same) terminal h.0)
      (λ d d' p h. h) (Ensures-of_Reads (pure current) (Reads-pure current))

-- `transition` changes the tables along an allowed edge, in one piece, or not at all: when it
-- returns a task, that is the row of the task afterwards, and either the task was in that terminal
-- status already and nothing changed, or the whole move was made; when it fails, nothing changed
-- or (the failure being in reading the rows back) the whole move was made.
pub transition_effect :
    (id : String) (next : TaskStatus) (payload : Option Value)
    → let p = unwrap_or empty_object payload in
      Ensures (λ _. Unit) (Transitioned id next p) (Moved id next p) (transition id next payload)
unfolding transition
transition_effect id next payload =
    (Ensures-read {Pre = λ _. Unit} (get id) _ (Reads-get id) λ current.
      Ensures-read _ _
        (Reads-map_err state _ (Reads-lift (validate_transition current.status next)))
        λ verdict. Ensures-follow id next (unwrap_or empty_object payload) current verdict)
