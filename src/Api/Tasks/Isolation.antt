-- ===== src/Api/Tasks/Isolation.antt =====
-- What a product can do with the tasks of other products.
use mathlib.Core.Option.{some-injective}
use opendaemon.Prelude.{
  String, ◌≡◌, ◌≢◌, sym, ap, ◌∙◌, List, Option, some, eq_iff, Result, All, arith, none, select,
  Bool-cases, inl, inr, subst, [], ◌∷◌,
}
use opendaemon.Registry.{ProviderRegistry}
use opendaemon.Product.{ApiScope}
use opendaemon.Task.Model.{Task, CreateTask}
use opendaemon.Store.World.{Db}
use opendaemon.Store.Rows.{TaskFilters, task_by_id, matches}
use opendaemon.Store.Exec.{Exec, map_err}
use opendaemon.Store.Logic.{
  Anything, Reads, Reads-then, Reads-weaken, Reads-map_err, Reads-lift, Reads-pure, Ensures,
  Ensures-read,
}
use opendaemon.Store.Tasks
use opendaemon.Store.Tasks.Reading.{Reads-get}
use opendaemon.Scheduler.Service.Waiting.{Reads-list}
use opendaemon.Auth.{ProductAuthContext, ensure_product, require_scope}
use opendaemon.Api.Tasks.{
  ApiError, from_store, auth, scope, own, own_if, list, create, get, cancel, post_event, events,
  TaskEventRequest, filters_of,
}

Reads-scope : (c : ProductAuthContext) (s : ApiScope) → Reads Anything (scope c s)
unfolding scope
Reads-scope c s =
    Reads-weaken _ (λ d u h. tt) (Reads-map_err auth _ (Reads-lift (require_scope c s)))

Reads-own : (c : ProductAuthContext) (p : String) → Reads (λ d u. c.product_id ≡ p) (own c p)
unfolding own ensure_product
Reads-own c p =
    Reads-weaken _ (λ d u h. (eq_iff c.product_id p).0 (ground (arith, h)))
      (Reads-map_err auth _ (Reads-lift (ensure_product c p)))

Reads-get_task :
    (id : String) → Reads (λ d t. task_by_id id d ≡ some t) (map_err from_store (Tasks.get id))
Reads-get_task id = Reads-map_err from_store _ (Reads-get id)

-- a run that cannot be
never :
    {E A : Type 0} {Pre : Db → Type 0} {S : Db → A → Db → Type 0} {T : Db → Db → Type 0}
    (m : Exec E A)
    → ((d : Db) → Pre d → ⊥)
    → Ensures Pre S T m
never m h = record { at = λ w q. absurd (h w.db q) }

-- the task belongs to another product
abbrev pub Foreign : ProductAuthContext → String → Db → Type 0
Foreign c id d = (t : Task) × (task_by_id id d ≡ some t) × (t.owner_product_id ≢ c.product_id)

-- the operation fails and changes nothing
abbrev pub Refused : {A : Type 0} → (Db → Type 0) → Exec ApiError A → Type 0
Refused Pre m = Ensures Pre (λ _ _ _. ⊥) (λ _ _. ⊥) m

Foreign-own :
    (c : ProductAuthContext) (id : String) (d : Db) (t : Task)
    → Foreign c id d
    → task_by_id id d ≡ some t
    → c.product_id ≡ t.owner_product_id
    → ⊥
Foreign-own c id d t (u, found, other) e same =
    other (ap (λ (x : Task). x.owner_product_id) (some-injective u t (sym found ∙ e)) ∙ sym same)

module _ (c : ProductAuthContext) (id : String) where
  Refused-get : Refused (Foreign c id) (get c id)
  unfolding get
  Refused-get = Ensures-read _ _ (Reads-get_task id) λ t. Ensures-read _ _ (Reads-scope c _) λ u.
      Ensures-read _ _ (Reads-own c t.owner_product_id)
        λ v. never _ λ d q. Foreign-own c id d t q.0.0.0 q.0.0.1 q.1

  Refused-cancel : Refused (Foreign c id) (cancel c id)
  unfolding cancel
  Refused-cancel = Ensures-read _ _ (Reads-scope c _) λ u. Ensures-read _ _ (Reads-get_task id) λ t.
      Ensures-read _ _ (Reads-own c t.owner_product_id)
        λ v. never _ λ d q. Foreign-own c id d t q.0.0.0 q.0.1 q.1

  Refused-post_event :
      (request : TaskEventRequest) → Refused (Foreign c id) (post_event c id request)
  unfolding post_event
  Refused-post_event request = Ensures-read _ _ (Reads-scope c _) λ u.
      Ensures-read _ _ (Reads-get_task id) λ t.
        Ensures-read _ _ (Reads-own c t.owner_product_id)
          λ v. never _ λ d q. Foreign-own c id d t q.0.0.0 q.0.1 q.1

  Refused-events :
      (cursor last_event_id : Option String)
      → Refused (Foreign c id) (events c id cursor last_event_id)
  unfolding events
  Refused-events cursor last_event_id = Ensures-read _ _ (Reads-scope c _) λ u.
      Ensures-read _ _ (Reads-get_task id) λ t.
        Ensures-read _ _ (Reads-own c t.owner_product_id)
          λ v. never _ λ d q. Foreign-own c id d t q.0.0.0 q.0.1 q.1

Refused-create :
    (registry : Result ProviderRegistry (List String)) (c : ProductAuthContext)
    (request : CreateTask)
    → Refused (λ _. request.owner_product_id ≢ c.product_id) (create registry c request)
unfolding create
Refused-create registry c request =
    Ensures-read _ _ (Reads-scope c _) λ u.
      Ensures-read _ _ (Reads-own c request.owner_product_id) λ v. never _ λ d q. q.0.0 (sym q.1)

-- For a task of another product: reading it, cancelling it, answering a permission request of it and
-- following its events all fail and change nothing; so does creating a task for another product.
pub other_products_kept_out :
    (registry : Result ProviderRegistry (List String)) (c : ProductAuthContext) (id : String)
    (request : CreateTask) (answer : TaskEventRequest) (cursor last_event_id : Option String)
    → Refused (Foreign c id) (get c id)
      × Refused (Foreign c id) (cancel c id)
      × Refused (Foreign c id) (post_event c id answer)
      × Refused (Foreign c id) (events c id cursor last_event_id)
      × Refused (λ _. request.owner_product_id ≢ c.product_id) (create registry c request)
other_products_kept_out registry c id request answer cursor last_event_id = (
  Refused-get c id,
  Refused-cancel c id,
  Refused-post_event c id answer,
  Refused-events c id cursor last_event_id,
  Refused-create registry c request,
)

Reads-own_if : (c : ProductAuthContext) (o : Option String) → Reads Anything (own_if c o)
unfolding own_if
Reads-own_if c none = Reads-weaken _ (λ d u h. tt) (Reads-pure tt)
Reads-own_if c (some p) = Reads-weaken _ (λ d u h. tt) (Reads-own c p)

-- `list` changes nothing, and returns tasks of the product that asks only.
pub Reads-list_own :
    (c : ProductAuthContext) (query : TaskFilters)
    → Reads (λ d ts. All (λ t. t.owner_product_id ≡ c.product_id) ts) (list c query)
unfolding list matches
Reads-list_own c query =
    Reads-weaken _
      (λ d ts h. subst (All (λ t. t.owner_product_id ≡ c.product_id)) (sym h) (of_product d.tasks))
      (Reads-then (scope c _) _ (Reads-scope c _) (
        Reads-then (own_if c _) _ (Reads-own_if c _)
          (Reads-map_err from_store _ (Reads-list (filters_of c query)))))
  where
    of_product :
        (ts : List Task)
        → All (λ t. t.owner_product_id ≡ c.product_id) (select (matches (filters_of c query)) ts)
    of_product [] = tt
    of_product (t ∷ ts) = elim (Bool-cases (matches (filters_of c query) t)) [
      | inl e ↦
          rw e (sym ((eq_iff c.product_id t.owner_product_id).0 (ground (arith, e))), of_product ts)
      | inr e ↦ rw e (of_product ts)
    ]
