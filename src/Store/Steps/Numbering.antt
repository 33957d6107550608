-- ===== src/Store/Steps/Numbering.antt =====
-- The numbers of a task's events: 1, 2, 3 and so on in the order of their rows, whatever calls of
-- store/tasks.rs have been made.
use Prim.Native.Nat.{max}
use opendaemon.Prelude.{
  ℕ, ◌+◌, String, true, false, ◌≡◌, refl, sym, subst, ap, ◌∙◌, List, [], ◌∷◌, ◌++◌, any, select,
  select-append, length, Bool-cases, inl, inr, arith, eq_iff,
}
use opendaemon.Task.Event.{TaskEvent, TaskEventType, request_to_value, decision_to_value}
use opendaemon.Store.World.{World, Db}
use opendaemon.Store.Rows.{
  of_task, max_sequence, next_sequence_of, clashes, replace_lock, release_held, update_result,
}
use opendaemon.Store.Tasks.{new_event}
use opendaemon.Store.Tasks.Rows.{created_rows_lem, created_event}
use opendaemon.Store.Steps.{Step, create, move, append, request, decide, acquire, release, save}
use opendaemon.Store.Steps.Operations.{Operation, perform, perform-keeps}

-- the events are numbered from `n` on
abbrev pub IsNumbered : ℕ → List TaskEvent → Type 0
IsNumbered n [] = Unit
IsNumbered n (e ∷ es) = (e.sequence ≡ n) × IsNumbered (n + 1) es

abbrev pub events_of : String → Db → List TaskEvent
events_of id d = select (of_task id) d.task_events

abbrev pub AllNumbered : Db → Type 0
AllNumbered d = (id : String) → IsNumbered 1 (events_of id d)

IsNumbered-append :
    (n : ℕ) (es : List TaskEvent) (e : TaskEvent)
    → IsNumbered n es
    → e.sequence ≡ n + length es
    → IsNumbered n (es ++ e ∷ [])
IsNumbered-append n [] e h q = ground arith
IsNumbered-append n (f ∷ es) e h q = (h.0, IsNumbered-append (n + 1) es e h.1 (ground arith))

max_sequence-IsNumbered :
    (id : String) (n : ℕ) (es : List TaskEvent)
    → IsNumbered (n + 1) (select (of_task id) es)
    → max n (max_sequence id es) ≡ n + length (select (of_task id) es)
max_sequence-IsNumbered id n [] h = ground arith
max_sequence-IsNumbered id n (e ∷ es) h =
    ground (arith, max_sequence-IsNumbered id n es, max_sequence-IsNumbered id (n + 1) es)

-- the next number is one more than the number of events
pub next_sequence_of_lem :
    (id : String) (d : Db)
    → IsNumbered 1 (events_of id d)
    → next_sequence_of id d ≡ 1 + length (events_of id d)
unfolding next_sequence_of
next_sequence_of_lem id d h = ground (arith, max_sequence-IsNumbered id 0 d.task_events h)

-- where a first event can be inserted, there is none yet
none_yet :
    (e : TaskEvent) (es : List TaskEvent)
    → e.sequence ≡ 1
    → any (clashes e) es ≡ false
    → IsNumbered 1 (select (of_task e.task_id) es)
    → length (select (of_task e.task_id) es) ≡ 0
none_yet e [] q fresh h = refl
none_yet e (f ∷ es) q fresh h = ground (arith, none_yet e es q)

-- one more row, numbered next, keeps the numbering of every task
module _ (d d' : Db) (numbered : AllNumbered d) where
  add :
      (e : TaskEvent)
      → d'.task_events ≡ d.task_events ++ e ∷ []
      → e.sequence ≡ 1 + length (events_of e.task_id d)
      → AllNumbered d'
  add e rows q id = subst (IsNumbered 1) (sym split) (elim (Bool-cases (of_task id e)) [
    | inl own ↦
        subst (λ l. IsNumbered 1 (events_of id d ++ l)) (sym (single own))
          (IsNumbered-append 1 (events_of id d) e (numbered id)
            (q ∙ ap (λ i. 1 + length (events_of i d)) ((eq_iff e.task_id id).0 own)))
    | inr other ↦
        subst (λ l. IsNumbered 1 (events_of id d ++ l)) (sym (no_row other))
          (subst (IsNumbered 1) (sym (++-nil (events_of id d))) (numbered id))
  ])
    where
      split : events_of id d' ≡ events_of id d ++ select (of_task id) (e ∷ [])
      split = ap (select (of_task id)) rows ∙ select-append (of_task id) d.task_events (e ∷ [])

      single : of_task id e ≡ true → select (of_task id) (e ∷ []) ≡ e ∷ []
      single own = ground arith

      no_row : of_task id e ≡ false → select (of_task id) (e ∷ []) ≡ []
      no_row other = ground arith

      ++-nil : (l : List TaskEvent) → l ++ [] ≡ l
      ++-nil [] = refl
      ++-nil (x ∷ l) = ap (λ r. x ∷ r) (++-nil l)

  same_events : d'.task_events ≡ d.task_events → AllNumbered d'
  same_events e id = subst (λ es. IsNumbered 1 (select (of_task id) es)) (sym e) (numbered id)

-- every step keeps the numbering
pub Step-AllNumbered : (d d' : Db) → Step d d' → AllNumbered d → AllNumbered d'
unfolding replace_lock release_held update_result
Step-AllNumbered d d' (create input (now, _, rows)) h =
    let r = created_rows_lem input now d d' rows in
    let e = created_event now d in
    add d d' h e r.events
      (ap (λ n. 1 + n) (sym (none_yet e d.task_events refl r.fresh (h e.task_id))))
Step-AllNumbered d d' (move id next payload m) h =
    add d d' h _ m.rows.events (next_sequence_of_lem id d (h id))
Step-AllNumbered d d' (append id event_type payload (now, t, _, rows)) h =
    add d d' h (new_event id (next_sequence_of id d) event_type payload now) (ground arith)
      (next_sequence_of_lem id d (h id))
Step-AllNumbered d d' (request id r (now, t, _, rows)) h =
    add d d' h
      (new_event id (next_sequence_of id d) TaskEventType.provider_permission_requested
        (request_to_value r) now)
      (ground arith) (next_sequence_of_lem id d (h id))
Step-AllNumbered d d' (decide id response (now, r, _, _, rows)) h =
    add d d' h
      (new_event id (next_sequence_of id d) TaskEventType.provider_permission_decided
        (decision_to_value response) now)
      (ground arith) (next_sequence_of_lem id d (h id))
Step-AllNumbered d d' (acquire r (now, _, e)) h =
    same_events d d' h (ap (λ (x : Db). x.task_events) e)
Step-AllNumbered d d' (release id (now, e)) h =
    same_events d d' h (ap (λ (x : Db). x.task_events) e)
Step-AllNumbered d d' (save id result e) h = same_events d d' h (ap (λ (x : Db). x.task_events) e)

-- Whatever calls are made, in any world, and whichever of them fail: where every task's events
-- were numbered 1, 2, 3 and so on in the order of their rows, they still are.
pub events-IsNumbered :
    (ops : List Operation) (w : World)
    → AllNumbered w.db
    → (id : String) → IsNumbered 1 (events_of id (perform ops w).db)
events-IsNumbered ops w h = perform-keeps AllNumbered Step-AllNumbered ops w h
