-- ===== src/Scheduler/Service/Invariants.antt =====
-- What holds of the tables whatever is asked of the scheduler of scheduler/service.rs.
use opendaemon.Prelude.{String, ◌≡◌, List, [], ◌∷◌, some, true}
use opendaemon.Task.Model.{Task, is_terminal}
use opendaemon.Store.World.{World, Db}
use opendaemon.Store.Rows.{task_by_id}
use opendaemon.Store.Locks.{locks_in}
use opendaemon.Store.Steps.{Step, Steps, none, more}
use opendaemon.Store.Steps.Walks.{Steps-append}
use opendaemon.Store.Steps.Numbering.{IsNumbered, AllNumbered, events_of, Step-AllNumbered}
use opendaemon.Store.Steps.Exclusion.{AreCompatible, AllCompatible, Step-AllCompatible}
use opendaemon.Store.Steps.Lifecycle.{Later, Steps-Later, terminal_forever}
use opendaemon.Scheduler.Service.Preserves.{Call, serve, serve-Steps}

Steps-keep :
    (P : Db → Type 0)
    → ((d d' : Db) → Step d d' → P d → P d')
    → (d d' : Db) → Steps d d'
    → P d
    → P d'
Steps-keep P keep d d' none p = p
Steps-keep P keep d d' (more {d' = m} before s) p = keep m d' s (Steps-keep P keep d m before p)

module _ {Workspace Error : Type 0} where
  unfoldable pub serve_all : List (Call Workspace Error) → World → World
  serve_all [] w = w
  serve_all (c ∷ cs) w = serve_all cs (serve c w)

  serve_all-Steps : (cs : List (Call Workspace Error)) (w : World) → Steps w.db (serve_all cs w).db
  unfolding serve_all
  serve_all-Steps [] w = none
  serve_all-Steps (c ∷ cs) w = Steps-append (serve-Steps c w) (serve_all-Steps cs (serve c w))

  -- Whatever calls of the scheduler are served one after the other, in any world, and whichever of
  -- them fail: the events of every task stay numbered 1, 2, 3 and so on, and no two locks that are
  -- held in one directory conflict, if both held before.
  pub scheduler_safe :
      (cs : List (Call Workspace Error)) (w : World)
      → AllNumbered w.db
      → AllCompatible w.db
      → (id directory : String)
      → IsNumbered 1 (events_of id (serve_all cs w).db)
        × AreCompatible (locks_in directory (serve_all cs w).db)
  scheduler_safe cs w numbered compatible id directory =
      let steps = serve_all-Steps cs w in
      (
        Steps-keep AllNumbered Step-AllNumbered w.db (serve_all cs w).db steps numbered id,
        Steps-keep AllCompatible Step-AllCompatible w.db (serve_all cs w).db steps compatible
            directory,
      )

  -- Whatever calls of the scheduler are served, a task that is stored stays stored: its status has
  -- moved along the diagram, and what was asked for has not changed.
  pub scheduler_lifecycle :
      (cs : List (Call Workspace Error)) (w : World) (id : String) (t : Task)
      → task_by_id id w.db ≡ some t
      → Later id t (serve_all cs w).db
  scheduler_lifecycle cs w id t found =
      Steps-Later id t w.db (serve_all cs w).db found (serve_all-Steps cs w)

  -- Whatever calls of the scheduler are served, a task that has ended keeps its status.
  pub scheduler_terminal :
      (cs : List (Call Workspace Error)) (w : World) (id : String) (t : Task)
      → task_by_id id w.db ≡ some t
      → is_terminal t.status ≡ true
      → (u : Task) × (task_by_id id (serve_all cs w).db ≡ some u) × (u.status ≡ t.status)
  scheduler_terminal cs w id t found ended =
      terminal_forever id t w.db (serve_all cs w).db found ended (serve_all-Steps cs w)
