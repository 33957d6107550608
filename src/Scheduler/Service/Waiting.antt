-- ===== src/Scheduler/Service/Waiting.antt =====
-- `running_or_preparing_count` of scheduler/service.rs, and how it sets a task to wait.
use opendaemon.Prelude.{
  ℕ, String, ◌≡◌, refl, sym, subst, ap, ◌∙◌, ◌⊎◌, inl, inr, some, List, [], ◌∷◌, select, length,
}
use opendaemon.Task.Model.{Task, TaskStatus}
use opendaemon.Scheduler.Locks.{LockDecision}
use opendaemon.Store.World.{Db}
use opendaemon.Store.Exec.{pure, call, query}
use opendaemon.Store.Logic.{
  Reads, Reads-pure, Reads-map_err, Reads-then, Reads-call, Reads-query, Reads-bind, Reads-weaken,
  Ensures, Ensures-weaken, Ensures-failure, Ensures-of_Reads,
}
use opendaemon.Store.Logic.Writes.{Ensures-bind, Ensures-map_err}
use opendaemon.Store.Rows.{TaskFilters, matches}
use opendaemon.Store.Tasks
use opendaemon.Store.Tasks.Moves.{Moved, Transitioned, moved, stayed, transition_effect}
use opendaemon.Scheduler.Errors.{from_store_error}
use opendaemon.Scheduler.Service.{payload, wait, running_or_preparing_count, no_filters, is_active}

pub Reads-list : (f : TaskFilters) → Reads (λ d ts. ts ≡ select (matches f) d.tasks) (Tasks.list f)
unfolding Tasks.list
Reads-list f =
    Reads-weaken _ (λ d a h. h.2 ∙ ap (select (matches f)) h.1)
      (Reads-then (call Tasks.store) _ (Reads-call Tasks.store) (
        Reads-bind (query Tasks.store (λ db. db.tasks)) _ (Reads-query Tasks.store (λ db. db.tasks))
          λ tasks. Reads-pure (select (matches f) tasks)))

-- the tasks that are being prepared or run
abbrev pub active_count : Db → ℕ
active_count d = length (select (λ (t : Task). is_active t.status) d.tasks)

select_all : (ts : List Task) → select (matches no_filters) ts ≡ ts
unfolding matches
select_all [] = refl
select_all (t ∷ ts) = ap (λ r. t ∷ r) (select_all ts)

pub Reads-count : Reads (λ d n. n ≡ active_count d) running_or_preparing_count
unfolding running_or_preparing_count
Reads-count =
    Reads-weaken _
      (λ d n h.
        h.2
        ∙ ap (λ ts. length (select (λ (t : Task). is_active t.status) ts))
            (h.1 ∙ select_all d.tasks))
      (Reads-bind _ _ (Reads-map_err from_store_error _ (Reads-list no_filters))
        λ tasks. Reads-pure (length (select (λ (t : Task). is_active t.status) tasks)))

-- the task was set to wait, for the reason given
abbrev pub Waits : String → String → Db → Db → Type 0
Waits id reason d d' = Moved id TaskStatus.waiting_directory_lock (payload "reason" reason) d d'

Waits-of_Transitioned :
    (id reason : String) (d : Db) (t : Task) (d' : Db)
    → Transitioned id TaskStatus.waiting_directory_lock (payload "reason" reason) d t d'
    → Waits id reason d d'
Waits-of_Transitioned id reason d t d' (moved m _) = m
Waits-of_Transitioned id reason d t d' (stayed _ _ terminal _) = absurd (cc)

pub Ensures-wait :
    (id reason : String) (decision : LockDecision)
    → Ensures
        (λ _. Unit)
        (λ d x d'. Waits id reason d d' × (x ≡ decision))
        (Waits id reason)
        (wait id reason decision)
unfolding wait
Ensures-wait id reason decision = Ensures-failure _ left (
    Ensures-weaken _ (λ d p. p) done (λ d d' p h. h)
      (Ensures-bind _ (λ _. pure decision)
        (Ensures-map_err from_store_error _
          (transition_effect id TaskStatus.waiting_directory_lock (some (payload "reason" reason))))
        λ t. Ensures-of_Reads {T = λ _ _. ⊥} (pure decision) (Reads-pure decision)))
  where
    WaitsFor : (d : Db) (t : Task) (d' : Db) → Type 0
    WaitsFor d t d' =
        Transitioned id TaskStatus.waiting_directory_lock (payload "reason" reason) d t d'

    done :
        (d : Db) (x : LockDecision) (d' : Db)
        → Unit {0}
        → (t : Task) × (d₁ : Db) × WaitsFor d t d₁ × ((d' ≡ d₁) × (x ≡ decision))
        → Waits id reason d d' × (x ≡ decision)
    done d x d' p (t, d₁, m, (e, q)) =
        (subst (Waits id reason d) (sym e) (Waits-of_Transitioned id reason d t d₁ m), q)

    left :
        (d d' : Db)
        → Unit {0}
        → Waits id reason d d' ⊎ ((t : Task) × (d₁ : Db) × WaitsFor d t d₁ × ((d' ≡ d₁) ⊎ ⊥))
        → (d' ≡ d) ⊎ Waits id reason d d'
    left d d' p (inl m) = inr m
    left d d' p (inr (t, d₁, m, inl e)) =
        inr (subst (Waits id reason d) (sym e) (Waits-of_Transitioned id reason d t d₁ m))
    left d d' p (inr (t, d₁, m, inr n)) = absurd n
