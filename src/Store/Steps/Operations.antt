-- ===== src/Store/Steps/Operations.antt =====
-- Every operation of store/tasks.rs that writes, as one step of the tables or none.
use opendaemon.Prelude.{
  String, ◌≡◌, sym, subst, ◌⊎◌, inl, inr, List, [], ◌∷◌, Option, none, Bool, true, false, Result,
  ok, err, unwrap_or,
}
use opendaemon.Json.{Value, empty_object}
use opendaemon.Task.Model.{Task, TaskStatus, TaskResult, CreateTask}
use opendaemon.Task.Event.{
  TaskEventType, PermissionDecision, PermissionDecisionEvent, PermissionRequestEvent,
}
use opendaemon.Scheduler.Locks.{LockRequest}
use opendaemon.Store.World.{World, Db}
use opendaemon.Store.Logic.{Outcome, Ensures}
use opendaemon.Store.Exec.{Exec}
use opendaemon.Task.Permission.{PermissionResolution}
use opendaemon.Store.Tasks
use opendaemon.Store.Tasks.{plain_result}
use opendaemon.Store.Tasks.Moves.{Transitioned, stayed, moved, transition_effect}
use opendaemon.Store.Tasks.Effects.{
  create_effect, append_event_effect, save_result_effect, save_execution_result_effect,
}
use opendaemon.Store.Permissions
use opendaemon.Store.Permissions.{decision_of}
use opendaemon.Store.Permissions.Requests.{record_permission_request_effect}
use opendaemon.Store.Permissions.Answers.{
  Answer, first_decision, same_again, resolve_permission_request_effect,
}
use opendaemon.Store.Locks
use opendaemon.Store.Locks.Effects.{Answered, acquire_lock_effect, release_locks_effect}
use opendaemon.Store.Steps.{Step, Steps}

-- a call of the task store
pub data Operation : Type 0 where
  create : CreateTask → Operation
  transition : String → TaskStatus → Option Value → Operation
  cancel : String → Operation
  save_result : String → String → List String → Operation
  save_execution_result : TaskResult → Operation
  append_event : String → TaskEventType → Value → Operation
  record_permission_request : String → PermissionRequestEvent → Operation
  resolve_permission_request : String → String → PermissionDecision → Option String → Operation
  acquire_lock : LockRequest → Operation
  release_locks : String → Operation

-- the world after a call, whether it returned or failed
unfoldable pub run : Operation → World → World
unfolding Tasks.cancel
run (create input) w = (Tasks.create input w).1
run (transition id next payload) w = (Tasks.transition id next payload w).1
run (cancel id) w = (Tasks.cancel id w).1
run (save_result id message files) w = (Tasks.save_result id message files w).1
run (save_execution_result result) w = (Tasks.save_execution_result result w).1
run (append_event id event_type payload) w = (Tasks.append_event id event_type payload w).1
run (record_permission_request id request) w =
    (Permissions.record_permission_request id request w).1
run (resolve_permission_request id request_id decision reason) w =
    (Permissions.resolve_permission_request id request_id decision reason w).1
run (acquire_lock request) w = (Locks.acquire_lock request w).1
run (release_locks id) w = (Locks.release_locks id w).1

unfoldable pub perform : List Operation → World → World
perform [] w = w
perform (op ∷ ops) w = perform ops (run op w)

-- an operation that does `S` if it returns, and `T` or nothing if it fails, makes one step or none
module _ {E A : Type 0} {S : Db → A → Db → Type 0} {T : Db → Db → Type 0} where
  step_of :
      (m : Exec E A)
      → Ensures (λ _. Unit) S T m
      → ((d : Db) (a : A) (d' : Db) → S d a d' → (d' ≡ d) ⊎ Step d d')
      → ((d d' : Db) → T d d' → Step d d')
      → (w : World) → ((m w).1.db ≡ w.db) ⊎ Step w.db (m w).1.db
  step_of m h s t w = go (m w).0 w.db (m w).1.db (h.at w tt)
    where
      go : (r : Result A E) (d d' : Db) → Outcome S T d r d' → (d' ≡ d) ⊎ Step d d'
      go (ok a) d d' o = s d a d' o
      go (err e) d d' (inl same) = inl same
      go (err e) d d' (inr done) = inr (t d d' done)

Transitioned-step :
    (id : String) (next : TaskStatus) (payload : Value) (d : Db) (t : Task) (d' : Db)
    → Transitioned id next payload d t d'
    → (d' ≡ d) ⊎ Step d d'
Transitioned-step id next payload d t d' (stayed _ _ _ same) = inl same
Transitioned-step id next payload d t d' (moved m _) = inr (Step.move id next payload m)

Answered-step :
    (r : LockRequest) (d : Db) (b : Bool) (d' : Db) → Answered r d b d' → (d' ≡ d) ⊎ Step d d'
Answered-step r d true d' h = inr (Step.acquire r h)
Answered-step r d false d' h = inl h.1

Answer-step :
    (id : String) (response : PermissionDecisionEvent) (d : Db) (r : PermissionResolution) (d' : Db)
    → Answer id response d r d'
    → (d' ≡ d) ⊎ Step d d'
Answer-step id response d r d' (first_decision h _ _ _) = inr (Step.decide id response h)
Answer-step id response d r d' (same_again _ _ _ _ _ _ _ _ same) = inl same

-- A call of the task store, in any world, makes one step of the tables or none.
pub run-Step : (op : Operation) (w : World) → ((run op w).db ≡ w.db) ⊎ Step w.db (run op w).db
unfolding run
run-Step (create input) w =
    step_of (Tasks.create input) (create_effect input) (λ d t d' h. inr (Step.create input h.0))
      (λ d d' h. Step.create input h) w
run-Step (transition id next payload) w =
    step_of (Tasks.transition id next payload) (transition_effect id next payload)
      (Transitioned-step id next (unwrap_or empty_object payload))
      (λ d d' h. Step.move id next (unwrap_or empty_object payload) h) w
run-Step (cancel id) w =
    step_of (Tasks.transition id TaskStatus.cancelled none)
      (transition_effect id TaskStatus.cancelled none)
      (Transitioned-step id TaskStatus.cancelled empty_object)
      (λ d d' h. Step.move id TaskStatus.cancelled empty_object h) w
run-Step (save_result id message files) w =
    step_of (Tasks.save_result id message files) (save_result_effect id message files)
      (λ d u d' h. inr (Step.save id (plain_result h.0 message files h.1) h.3)) (λ d d' n. absurd n)
      w
run-Step (save_execution_result result) w =
    step_of (Tasks.save_execution_result result) (save_execution_result_effect result)
      (λ d u d' h. inr (Step.save result.task_id result h)) (λ d d' n. absurd n) w
run-Step (append_event id event_type payload) w =
    step_of (Tasks.append_event id event_type payload) (append_event_effect id event_type payload)
      (λ d e d' h. inr (Step.append id event_type payload h.0))
      (λ d d' h. Step.append id event_type payload h) w
run-Step (record_permission_request id request) w =
    step_of (Permissions.record_permission_request id request)
      (record_permission_request_effect id request) (λ d e d' h. inr (Step.request id request h.0))
      (λ d d' h. Step.request id request h) w
run-Step (resolve_permission_request id request_id decision reason) w =
    step_of (Permissions.resolve_permission_request id request_id decision reason)
      (resolve_permission_request_effect id request_id decision reason)
      (λ d r d' h. Answer-step id (decision_of request_id decision reason) d r d' h)
      (λ d d' h. Step.decide id (decision_of request_id decision reason) h) w
run-Step (acquire_lock request) w =
    step_of (Locks.acquire_lock request) (acquire_lock_effect request) (Answered-step request)
      (λ d d' h. Step.acquire request h) w
run-Step (release_locks id) w =
    step_of (Locks.release_locks id) (release_locks_effect id) (λ d u d' h. inr (Step.release id h))
      (λ d d' n. absurd n) w

-- an invariant of every step is one of every sequence of calls
module _ (P : Db → Type 0) (keep : (d d' : Db) → Step d d' → P d → P d') where
  run-keeps : (op : Operation) (w : World) → P w.db → P (run op w).db
  run-keeps op w p = elim (run-Step op w) [
    | inl same ↦ subst P (sym same) p
    | inr step ↦ keep w.db (run op w).db step p
  ]

  pub perform-keeps : (ops : List Operation) (w : World) → P w.db → P (perform ops w).db
  unfolding perform
  perform-keeps [] w p = p
  perform-keeps (op ∷ ops) w p = perform-keeps ops (run op w) (run-keeps op w p)

Steps-prepend : {d d' d'' : Db} → Step d d' → Steps d' d'' → Steps d d''
Steps-prepend s Steps.none = Steps.more Steps.none s
Steps-prepend s (Steps.more before t) = Steps.more (Steps-prepend s before) t

-- Whatever calls are made, in any world, the tables change by steps.
pub perform-Steps : (ops : List Operation) (w : World) → Steps w.db (perform ops w).db
unfolding perform
perform-Steps [] w = Steps.none
perform-Steps (op ∷ ops) w = elim (run-Step op w) [
  | inl same ↦ subst (λ d. Steps d (perform ops (run op w)).db) same (perform-Steps ops (run op w))
  | inr step ↦ Steps-prepend step (perform-Steps ops (run op w))
]
