-- ===== src/Api/Tasks/Resuming.antt =====
-- A client that comes back with the number of the last event it saw.
use opendaemon.Prelude.{
  ℕ, ◌<◌, String, ◌≡◌, refl, ap, ◌∙◌, true, false, Option, some, none, ok, eq_refl,
}
use opendaemon.Text.Decimal.{show}
use opendaemon.Product.{has_scope, tasks_read}
use opendaemon.Task.Model.{Task, is_terminal}
use opendaemon.Task.Stream.{stream}
use opendaemon.Store.World.{World, Db}
use opendaemon.Store.Rows.{task_by_id, events_after}
use opendaemon.Store.Logic.Gives.{
  Gives, Gives-pure, Gives-lift, Gives-required, Gives-query, Gives-call, Gives-map_err, Gives-bind,
}
use opendaemon.Store.Tasks
use opendaemon.Store.Steps.Numbering.{IsNumbered, events_of}
use opendaemon.Store.Steps.Resuming.{skip, events_after_lem}
use opendaemon.Auth.{ProductAuthContext, require_scope, ensure_product}
use opendaemon.Api.Events.{parse_cursor}
use opendaemon.Api.Events.Cursors.{parse_cursor-show}
use opendaemon.Api.Tasks.{auth, task_events, from_store, scope, own, open_stream, events}

module _ {d : Db} (id : String) where
  Gives-get : (t : Task) → task_by_id id d ≡ some t → Gives d (Tasks.get id) t
  unfolding Tasks.get
  Gives-get t h = Gives-bind _ _ _ _ (Gives-call Tasks.store) (
      Gives-bind _ _ _ _ (Gives-query Tasks.store (task_by_id id))
        (Gives-required Tasks.not_found (task_by_id id d) t h))

  Gives-list_events_after : (n : ℕ) → Gives d (Tasks.list_events_after id n) (events_after id n d)
  unfolding Tasks.list_events_after
  Gives-list_events_after n =
      Gives-bind _ _ _ _ (Gives-call Tasks.store) (Gives-query Tasks.store (events_after id n))

module _ {d : Db} (c : ProductAuthContext) where
  Gives-scope : has_scope c.scopes tasks_read ≡ true → Gives d (scope c tasks_read) tt
  unfolding scope require_scope
  Gives-scope h = Gives-map_err auth _ tt (Gives-lift (require_scope c tasks_read) tt (rw h refl))

  Gives-own : (p : String) → p ≡ c.product_id → Gives d (own c p) tt
  unfolding own ensure_product
  Gives-own p h =
      Gives-map_err auth _ tt
        (Gives-lift (ensure_product c p) tt (rw (h, eq_refl c.product_id) refl))

  Gives-events :
      (id : String) (t : Task) (n : ℕ) (cursor last_event_id : Option String)
      → has_scope c.scopes tasks_read ≡ true
      → task_by_id id d ≡ some t
      → t.owner_product_id ≡ c.product_id
      → parse_cursor cursor last_event_id ≡ ok n
      → Gives d
          (events c id cursor last_event_id)
          (stream id n (is_terminal t.status) (events_after id n d))
  unfolding events open_stream
  Gives-events id t n cursor last_event_id may found owner read =
      Gives-bind _ _ _ _ (Gives-scope may) (
        Gives-bind _ _ _ _ (Gives-map_err from_store _ t (Gives-get id t found)) (
          Gives-bind _ _ _ _ (Gives-own t.owner_product_id owner) (
            Gives-bind _ _ _ _
              (Gives-map_err task_events _ n
                (Gives-lift (parse_cursor cursor last_event_id) n read))
              (Gives-bind _ _ _ _ (Gives-map_err _ _ t (Gives-get id t found)) (
                Gives-bind _ _ _ _ (Gives-map_err _ _ _ (Gives-list_events_after id n))
                  (Gives-pure _))))))

-- Where a task of the product that asks has its events numbered 1, 2, 3 and so on, the product may read
-- tasks, and no call of the database fails, `events` answers the decimal text of a number below 2⁶³,
-- given as the cursor or as the `Last-Event-ID`, with the stream that begins at that number and replays
-- the task's events but the first ones, as many as that number says.
pub events_resumed :
    (c : ProductAuthContext) (id : String) (t : Task) (n : ℕ) (w : World)
    → n < 0x8000000000000000
    → has_scope c.scopes tasks_read ≡ true
    → task_by_id id w.db ≡ some t
    → t.owner_product_id ≡ c.product_id
    → IsNumbered 1 (events_of id w.db)
    → ((k : ℕ) → w.fails k ≡ false)
    → ((events c id (some (show n)) none w).0
        ≡ ok (stream id n (is_terminal t.status) (skip n (events_of id w.db))))
      × ((events c id none (some (show n)) w).0
          ≡ ok (stream id n (is_terminal t.status) (skip n (events_of id w.db))))
events_resumed c id t n w small may found owner numbered fine =
    let read = parse_cursor-show n small in
    let behind =
      ap (λ es. stream id n (is_terminal t.status) es) (events_after_lem id n w.db numbered) in
    (
      ((Gives-events c id t n (some (show n)) none may found owner read.0).at w refl fine).0
          ∙ ap ok behind,
      ((Gives-events c id t n none (some (show n)) may found owner read.1).at w refl fine).0
          ∙ ap ok behind,
    )
