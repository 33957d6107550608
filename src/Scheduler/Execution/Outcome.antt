-- ===== src/Scheduler/Execution/Outcome.antt =====
-- What `persist_outcome` of scheduler/execution.rs leaves and returns.
use opendaemon.Prelude.{String, ◌≡◌, refl, sym, ap, ◌∙◌, some, find, find_passes, eq_refl, arith}
use mathlib.Core.Option.{some-injective}
use opendaemon.Json.{Value}
use opendaemon.Task.Model.{Task, TaskStatus}
use opendaemon.Store.World.{Db}
use opendaemon.Store.Exec.{◌>>=◌, map_err, now_rfc3339}
use opendaemon.Store.Logic.{
  Reads, Anything, Reads-map_err, Ensures, Ensures-read, Ensures-weaken, Ensures-write,
}
use opendaemon.Store.Logic.Writes.{Ensures-bind, Ensures-map_err, Ensures-any}
use opendaemon.Store.Rows.{task_by_id, has_id, set_status, update_result}
use opendaemon.Store.Tasks
use opendaemon.Store.Tasks.Reading.{Reads-get}
use opendaemon.Store.Tasks.Moves.{Transitioned, stayed, moved, transition_effect}
use opendaemon.Store.Tasks.Effects.{save_execution_result_effect}
use opendaemon.Store.Steps.Lifecycle.{find-update_where}
use opendaemon.Scheduler.Execution.{
  RuntimeExecutionOutcome, PreparedWorkspace, from_store, now_or_epoch, task_status, error_payload,
  result_from_outcome, persist_events, save_outcome, persist_outcome,
}

Reads-now_or_epoch : Reads Anything now_or_epoch
unfolding now_or_epoch now_rfc3339
Reads-now_or_epoch = record { same = λ w. ground arith; returns = λ w a h. tt }

-- after a transition, the row has the status that was asked for
pub status_of_Transitioned :
    (id : String) (next : TaskStatus) (p : Value) (d : Db) (t : Task) (d' : Db)
    → Transitioned id next p d t d'
    → (task_by_id id d' ≡ some t) × (t.status ≡ next)
status_of_Transitioned id next p d t d' (stayed f s _ e) = (ap (task_by_id id) e ∙ f, s)
status_of_Transitioned id next p d t d' (moved m f) = (f, ap (λ (x : Task). x.status) row)
  where
    new_row : task_by_id id d' ≡ some (set_status next m.now m.current)
    new_row =
        ap (find (has_id id)) m.rows.tasks
        ∙ find-update_where id id (set_status next m.now) (λ u. refl) (d.tasks) m.current m.found
        ∙ rw (find_passes (has_id id) d.tasks m.current m.found) refl

    row : t ≡ set_status next m.now m.current
    row = some-injective t (set_status next m.now m.current) (sym f ∙ new_row)

-- the result that is kept for a task, and the row that is returned
abbrev pub Saved : String → RuntimeExecutionOutcome → PreparedWorkspace → Db → Task → Db → Type 0
Saved id outcome workspace d t d' =
    (before : Task) × (now : String) × (task_by_id id d ≡ some before)
    × (task_by_id id d' ≡ some t)
    × (t.status ≡ before.status)
    × (t.result ≡ some (result_from_outcome before outcome workspace now))

Saved-row :
    (id : String) (outcome : RuntimeExecutionOutcome) (workspace : PreparedWorkspace) (d : Db)
    (before : Task) (now : String) (t : Task) (d' : Db)
    → task_by_id id d ≡ some before
    → d' ≡ update_result before.id (result_from_outcome before outcome workspace now) d
    → task_by_id id d' ≡ some t
    → Saved id outcome workspace d t d'
unfolding update_result
Saved-row id outcome workspace d before now t d' found e found' =
    (before, now, found, found', ap (λ (x : Task). x.status) row, ap (λ (x : Task). x.result) row)
  where
    with_result : Task → Task
    with_result x = record x {
      result = some (result_from_outcome before outcome workspace now);
      updated_at = now;
    }

    row : t ≡ with_result before
    row = some-injective t (with_result before) (
        sym found'
        ∙ ap (task_by_id id) e
        ∙ find-update_where id before.id with_result (λ u. refl) d.tasks before found
        ∙ rw (eq_refl before.id) refl)

Ensures-save_outcome :
    (id : String) (outcome : RuntimeExecutionOutcome) (workspace : PreparedWorkspace)
    → Ensures
        (λ _. Unit)
        (Saved id outcome workspace)
        (λ _ _. Unit)
        (save_outcome id outcome workspace)
unfolding save_outcome
Ensures-save_outcome id outcome workspace =
    Ensures-read {Pre = λ _. Unit} _ _ (Reads-map_err from_store _ (Reads-get id))
      λ before. Ensures-read _ _ Reads-now_or_epoch λ now. finish before now
  where
    finish :
        (before : Task) (now : String)
        → Ensures
            (λ d. (Unit {0} × (task_by_id id d ≡ some before)) × Unit {0})
            (Saved id outcome workspace)
            (λ _ _. Unit)
            (map_err from_store
                (Tasks.save_execution_result (result_from_outcome before outcome workspace now))
              >>= λ _. map_err from_store (Tasks.get id))
    finish before now =
        Ensures-weaken _ (λ d q. tt)
          (λ d t d' q h. Saved-row id outcome workspace d before now t d' q.0.1 h.1 h.2)
          (λ d d' q h. tt)
          (Ensures-write _ _
            (Ensures-map_err from_store _
              (save_execution_result_effect (result_from_outcome before outcome workspace now)))
            (λ _. Reads-map_err from_store _ (Reads-get id)))

-- the outcome is in the row of the task
abbrev pub Persisted : String → RuntimeExecutionOutcome → PreparedWorkspace → Task → Db → Type 0
Persisted id outcome workspace t d' =
    (before : Task) × (now : String) × (task_by_id id d' ≡ some t)
    × (t.status ≡ task_status outcome.status)
    × (before.status ≡ task_status outcome.status)
    × (t.result ≡ some (result_from_outcome before outcome workspace now))

persisted :
    (id : String) (outcome : RuntimeExecutionOutcome) (workspace : PreparedWorkspace) (p : Value)
    (d : Db) (u : Task) (d₁ : Db) (t : Task) (d' : Db)
    → Transitioned id (task_status outcome.status) p d u d₁
    → Saved id outcome workspace d₁ t d'
    → Persisted id outcome workspace t d'
persisted id outcome workspace p d u d₁ t d' m (before, now, found, found', kept, result) =
    let (u_found, u_status) = status_of_Transitioned id (task_status outcome.status) p d u d₁ m in
    let status =
      ap (λ (x : Task). x.status) (some-injective before u (sym found ∙ u_found)) ∙ u_status in
    (before, now, found', kept ∙ status, status, result)

pub persist_outcome_effect :
    (id : String) (outcome : RuntimeExecutionOutcome) (workspace : PreparedWorkspace)
    → Ensures
        (λ _. Unit)
        (λ d t d'. Persisted id outcome workspace t d')
        (λ _ _. Unit)
        (persist_outcome id outcome workspace)
unfolding persist_outcome
persist_outcome_effect id outcome workspace =
    Ensures-weaken _ (λ d p. p) (λ d t d' p h. h.3) (λ d d' p h. tt)
      (Ensures-bind _ _ (Ensures-any (persist_events id outcome.events)) λ _.
        Ensures-weaken _ (λ d p. p)
          (λ d t d' p h. persisted id outcome workspace _ d h.0 h.1 t d' h.2 h.3) (λ d d' p h. tt)
          (Ensures-bind {Pre = λ _. Unit} _ _
            (Ensures-map_err from_store _
              (transition_effect id (task_status outcome.status) (error_payload outcome.error)))
            (λ _. Ensures-save_outcome id outcome workspace)))
