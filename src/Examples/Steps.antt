-- ===== src/Examples/Steps.antt =====
-- What is reached from the tables of the small daemon.
use opendaemon.Prelude.{String, ◌≡◌, refl, ◌⊎◌, true, List, [], ◌∷◌, some, none, arith, ok}
use opendaemon.Task.Model.{TaskStatus}
use opendaemon.Store.World.{World}
use opendaemon.Store.Rows.{events_after}
use opendaemon.Store.Locks.{locks_in, held_lock}
use opendaemon.Store.Permissions.{request_by_id}
use opendaemon.Store.Steps.{Step}
use opendaemon.Store.Steps.Operations.{Operation, run, perform, run-Step}
use opendaemon.Store.Steps.Numbering.{IsNumbered, AllNumbered, events_of, events-IsNumbered}
use opendaemon.Store.Steps.Resuming.{skip, events_after_lem}
use opendaemon.Store.Steps.Exclusion.{AreCompatible, AllCompatible, locks_compatible}
use opendaemon.Store.Steps.Race.{acquire_both, acquire_both_lem}
use opendaemon.Store.Steps.Decisions.{decision_final}
use opendaemon.Scheduler.Locks.{LockRequest, LockMode}
use opendaemon.Examples.{a_db, a_world, a_decided_request, a_lock_request}

-- the calls that are made
abbrev some_calls : List Operation
some_calls =
    Operation.transition "task_1" TaskStatus.completed none
    ∷ Operation.acquire_lock a_lock_request
    ∷ Operation.cancel "task_2"
    ∷ []

abbrev end : World
end = perform some_calls a_world

pub numbered : AllNumbered a_db
numbered id = ground arith

pub compatible : AllCompatible a_db
compatible directory = ground arith

run-Step_example :
    ((run (Operation.cancel "task_1") a_world).db ≡ a_db)
    ⊎ Step a_db (run (Operation.cancel "task_1") a_world).db
run-Step_example = run-Step (Operation.cancel "task_1") a_world

events-IsNumbered_example : IsNumbered 1 (events_of "task_1" end.db)
events-IsNumbered_example = events-IsNumbered some_calls a_world numbered "task_1"

events_after_lem_example : events_after "task_1" 1 a_db ≡ skip 1 (events_of "task_1" a_db)
events_after_lem_example = events_after_lem "task_1" 1 a_db (refl, (refl, tt))

locks_compatible_example : AreCompatible (locks_in "dir_1" end.db)
locks_compatible_example = locks_compatible some_calls a_world compatible "dir_1"

decision_final_example : request_by_id "task_1" "req_1" end.db ≡ some a_decided_request
decision_final_example =
    decision_final some_calls a_world "task_1" "req_1" a_decided_request refl refl

abbrev in_dir_2 : String → LockRequest
in_dir_2 task_id = record { directory_id = "dir_2"; task_id = task_id; mode = LockMode.exclusive }

acquire_both_lem_example :
    ((acquire_both (in_dir_2 "task_1") (in_dir_2 "task_3") a_world).0 ≡ ok (true, true))
    × ((t u : String) × (locks_in "dir_2"
            (acquire_both (in_dir_2 "task_1") (in_dir_2 "task_3") a_world).1.db
          ≡ held_lock (in_dir_2 "task_1") t ∷ held_lock (in_dir_2 "task_3") u ∷ []))
acquire_both_lem_example =
    acquire_both_lem (in_dir_2 "task_1") (in_dir_2 "task_3") a_world (λ n. refl) refl refl refl
