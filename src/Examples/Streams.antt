-- ===== src/Examples/Streams.antt =====
-- A stream of the small daemon's events: one is replayed, one missed and delivered again.
use opendaemon.Prelude.{List, [], ◌∷◌, some, false, arith}
use opendaemon.Task.Event.{TaskEvent, TaskEventType}
use opendaemon.Task.Stream.{Signal, tick, received, lagged, forward, stream}
use opendaemon.Task.Stream.Order.{Ascends, StopsAtEnd, stream-Ascends, forward-StopsAtEnd}
use opendaemon.Examples.{an_event}

abbrev first : TaskEvent
first = an_event "evt_task_1_1" "task_1" 1 TaskEventType.queued

abbrev second : TaskEvent
second = an_event "evt_task_1_2" "task_1" 2 TaskEventType.cancelled

abbrev signals : List Signal
signals = received first ∷ tick ∷ lagged (some (second ∷ [])) ∷ received second ∷ []

stream-Ascends_example : Ascends 0 (stream "task_1" 0 false (first ∷ []) signals)
stream-Ascends_example = stream-Ascends "task_1" 0 false (first ∷ []) signals (omega arith, tt)

forward-StopsAtEnd_example : StopsAtEnd (forward "task_1" 1 signals)
forward-StopsAtEnd_example = forward-StopsAtEnd "task_1" 1 signals
