-- ===== src/Task/Stream.antt =====
-- The stream of a task's events of task/service.rs: the stored events after a cursor, and then the
-- live ones from the bus, as a function of what the bus delivers. The receiver of the stream is
-- taken to stay; one that leaves sees the first frames only.
pub mod Order
use opendaemon.Prelude.{
  ℕ, ◌<◌, String, Bool, true, false, not, ◌||◌, leb, List, [], ◌∷◌, ◌++◌, Option, none, some,
  str_eq, if◌then◌else◌, ◌≡◌, refl, ◌⊎◌, inl, inr, Bool-cases, arith, ap,
}
use opendaemon.Task.Event.{TaskEvent, is_terminal_event_type}

pub data TaskStreamFrame : Type 0 where
  event : TaskEvent → TaskStreamFrame
  heartbeat : TaskStreamFrame

-- what `select!` takes next: the timer, an event of the bus, the news that events were missed, with
-- what `list_events_after` then returns, or the end of the bus
pub data Signal : Type 0 where
  tick closed : Signal
  received : TaskEvent → Signal
  lagged : Option (List TaskEvent) → Signal

abbrev pub is_terminal_event : TaskEvent → Bool
is_terminal_event e = is_terminal_event_type e.event_type

-- the loop over the missed events: what is sent, and the highest number if the stream goes on
unfoldable pub catch_up : ℕ → List TaskEvent → List TaskStreamFrame × Option ℕ
catch_up highest [] = ([], some highest)
catch_up highest (e ∷ es) =
    let (skipped, later) = catch_up highest es in
    let (rest, highest') = catch_up e.sequence es in
    if leb e.sequence highest
    then (skipped, later)
    else if is_terminal_event e
    then (event e ∷ [], none)
    else (event e ∷ rest, highest')

-- the loop over the live events
unfoldable pub forward : String → ℕ → List Signal → List TaskStreamFrame
forward id highest [] = []
forward id highest (tick ∷ signals) = heartbeat ∷ forward id highest signals
forward id highest (closed ∷ signals) = []
forward id highest (received e ∷ signals) =
    let skipped = forward id highest signals in
    let rest = forward id e.sequence signals in
    if not (str_eq e.task_id id) || leb e.sequence highest
    then skipped
    else event e ∷ (if is_terminal_event e then [] else rest)
forward id highest (lagged none ∷ signals) = []
forward id highest (lagged (some es) ∷ signals) =
    let (sent, later) = catch_up highest es in
    elim later [ none ↦ sent | some highest' ↦ sent ++ forward id highest' signals ]

-- the replay, and the number of its last event
unfoldable pub replayed : List TaskEvent → List TaskStreamFrame
replayed [] = []
replayed (e ∷ es) = event e ∷ replayed es

unfoldable pub last_sequence : ℕ → List TaskEvent → ℕ
last_sequence highest [] = highest
last_sequence highest (e ∷ es) = last_sequence e.sequence es

-- `replay.last().is_some_and(…)`
unfoldable pub last_is_terminal : List TaskEvent → Bool
last_is_terminal [] = false
last_is_terminal (e ∷ []) = is_terminal_event e
last_is_terminal (e ∷ f ∷ es) = last_is_terminal (f ∷ es)

-- `ended` says whether the task's status is terminal when the stream is asked for
unfoldable pub stream : String → ℕ → Bool → List TaskEvent → List Signal → List TaskStreamFrame
stream id cursor ended replay signals =
    replayed replay
    ++ (if ended || last_is_terminal replay
        then []
        else forward id (last_sequence cursor replay) signals)
