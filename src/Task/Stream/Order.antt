-- ===== src/Task/Stream/Order.antt =====
-- The order of the frames that the stream of task/service.rs sends.
use opendaemon.Prelude.{
  ℕ, ◌<◌, String, Bool, true, false, ◌||◌, List, [], ◌∷◌, ◌++◌, Option, none, some, if◌then◌else◌,
  ◌≡◌, refl, ◌⊎◌, inl, arith,
}
use opendaemon.Task.Event.{TaskEvent}
use opendaemon.Task.Stream.{
  TaskStreamFrame, event, heartbeat, Signal, tick, closed, received, lagged, is_terminal_event,
  catch_up, forward, replayed, last_sequence, last_is_terminal, stream,
}

-- the numbers of the events grow, from above `n` on
abbrev pub Ascends : ℕ → List TaskStreamFrame → Type 0
Ascends n [] = Unit
Ascends n (heartbeat ∷ fs) = Ascends n fs
Ascends n (event e ∷ fs) = (n < e.sequence) × Ascends e.sequence fs

abbrev pub AscendsFrom : ℕ → List TaskEvent → Type 0
AscendsFrom n [] = Unit
AscendsFrom n (e ∷ es) = (n < e.sequence) × AscendsFrom e.sequence es

-- the highest number that the frames leave
abbrev top : ℕ → List TaskStreamFrame → ℕ
top n [] = n
top n (heartbeat ∷ fs) = top n fs
top n (event e ∷ fs) = top e.sequence fs

Ascends-append :
    (n : ℕ) (fs gs : List TaskStreamFrame)
    → Ascends n fs
    → Ascends (top n fs) gs
    → Ascends n (fs ++ gs)
Ascends-append n [] gs h k = k
Ascends-append n (heartbeat ∷ fs) gs h k = Ascends-append n fs gs h k
Ascends-append n (event e ∷ fs) gs h k = (h.0, Ascends-append e.sequence fs gs h.1 k)

catch_up-Ascends : (n : ℕ) (es : List TaskEvent) → Ascends n (catch_up n es).0
unfolding catch_up
catch_up-Ascends n [] = tt
catch_up-Ascends n (e ∷ es) = ground (arith, catch_up-Ascends n es, catch_up-Ascends e.sequence es)

top-catch_up :
    (n : ℕ) (es : List TaskEvent) (m : ℕ) → (catch_up n es).1 ≡ some m → top n (catch_up n es).0 ≡ m
unfolding catch_up
top-catch_up n [] m h = ground arith
top-catch_up n (e ∷ es) m h = ground (arith, top-catch_up n es m, top-catch_up e.sequence es m)

forward-Ascends : (id : String) (n : ℕ) (signals : List Signal) → Ascends n (forward id n signals)
unfolding forward
forward-Ascends id n [] = tt
forward-Ascends id n (tick ∷ signals) = forward-Ascends id n signals
forward-Ascends id n (closed ∷ signals) = tt
forward-Ascends id n (received e ∷ signals) =
    ground (arith, forward-Ascends id n signals, forward-Ascends id e.sequence signals)
forward-Ascends id n (lagged none ∷ signals) = tt
forward-Ascends id n (lagged (some es) ∷ signals) =
    caught_up (catch_up n es).0 (catch_up n es).1 (catch_up-Ascends n es) (top-catch_up n es)
      (λ m. forward-Ascends id m signals)
  where
    caught_up :
        (sent : List TaskStreamFrame) (later : Option ℕ)
        → Ascends n sent
        → ((m : ℕ) → later ≡ some m → top n sent ≡ m)
        → ((m : ℕ) → Ascends m (forward id m signals))
        → Ascends n
            (elim later [ none ↦ sent | some highest' ↦ sent ++ forward id highest' signals ])
    caught_up sent none h k rest = h
    caught_up sent (some m) h k rest =
        Ascends-append n sent (forward id m signals) h (rw (k m refl) (rest m))

replayed-Ascends :
    (n : ℕ) (es : List TaskEvent) (gs : List TaskStreamFrame)
    → AscendsFrom n es
    → Ascends (last_sequence n es) gs
    → Ascends n (replayed es ++ gs)
unfolding replayed last_sequence
replayed-Ascends n [] gs h k = k
replayed-Ascends n (e ∷ es) gs h k = (h.0, replayed-Ascends e.sequence es gs h.1 k)

-- Whatever the bus delivers, and however often events are missed, delivered twice or late: where
-- the replayed events have growing numbers above the cursor, the numbers of all events of the
-- stream grow from above the cursor on, so that none is sent twice or out of order.
pub stream-Ascends :
    (id : String) (cursor : ℕ) (ended : Bool) (replay : List TaskEvent) (signals : List Signal)
    → AscendsFrom cursor replay
    → Ascends cursor (stream id cursor ended replay signals)
unfolding stream
stream-Ascends id cursor ended replay signals h =
    replayed-Ascends cursor replay _ h (tail (ended || last_is_terminal replay))
  where
    tail :
        (b : Bool)
        → Ascends
            (last_sequence cursor replay)
            (if b then [] else forward id (last_sequence cursor replay) signals)
    tail true = tt
    tail false = forward-Ascends id (last_sequence cursor replay) signals

-- an event that ends the task ends the frames
abbrev pub StopsAtEnd : List TaskStreamFrame → Type 0
StopsAtEnd [] = Unit
StopsAtEnd (heartbeat ∷ fs) = StopsAtEnd fs
StopsAtEnd (event e ∷ fs) = ((is_terminal_event e ≡ false) ⊎ (fs ≡ [])) × StopsAtEnd fs

-- none of the events ends the task
abbrev GoesOn : List TaskStreamFrame → Type 0
GoesOn [] = Unit
GoesOn (heartbeat ∷ fs) = GoesOn fs
GoesOn (event e ∷ fs) = (is_terminal_event e ≡ false) × GoesOn fs

StopsAtEnd-append :
    (fs gs : List TaskStreamFrame) → GoesOn fs → StopsAtEnd gs → StopsAtEnd (fs ++ gs)
StopsAtEnd-append [] gs h k = k
StopsAtEnd-append (heartbeat ∷ fs) gs h k = StopsAtEnd-append fs gs h k
StopsAtEnd-append (event e ∷ fs) gs h k = (inl h.0, StopsAtEnd-append fs gs h.1 k)

catch_up-StopsAtEnd : (n : ℕ) (es : List TaskEvent) → StopsAtEnd (catch_up n es).0
unfolding catch_up
catch_up-StopsAtEnd n [] = tt
catch_up-StopsAtEnd n (e ∷ es) =
    ground (arith, catch_up-StopsAtEnd n es, catch_up-StopsAtEnd e.sequence es)

catch_up-GoesOn :
    (n : ℕ) (es : List TaskEvent) (m : ℕ) → (catch_up n es).1 ≡ some m → GoesOn (catch_up n es).0
unfolding catch_up
catch_up-GoesOn n [] m h = tt
catch_up-GoesOn n (e ∷ es) m h =
    ground (arith, catch_up-GoesOn n es m, catch_up-GoesOn e.sequence es m)

-- Whatever the bus delivers, an event that ends the task is the last frame that the live part of
-- the stream sends.
pub forward-StopsAtEnd :
    (id : String) (highest : ℕ) (signals : List Signal) → StopsAtEnd (forward id highest signals)
unfolding forward
forward-StopsAtEnd id n [] = tt
forward-StopsAtEnd id n (tick ∷ signals) = forward-StopsAtEnd id n signals
forward-StopsAtEnd id n (closed ∷ signals) = tt
forward-StopsAtEnd id n (received e ∷ signals) =
    ground (arith, forward-StopsAtEnd id n signals, forward-StopsAtEnd id e.sequence signals)
forward-StopsAtEnd id n (lagged none ∷ signals) = tt
forward-StopsAtEnd id n (lagged (some es) ∷ signals) =
    caught_up (catch_up n es).0 (catch_up n es).1 (catch_up-StopsAtEnd n es) (catch_up-GoesOn n es)
      (λ m. forward-StopsAtEnd id m signals)
  where
    caught_up :
        (sent : List TaskStreamFrame) (later : Option ℕ)
        → StopsAtEnd sent
        → ((m : ℕ) → later ≡ some m → GoesOn sent)
        → ((m : ℕ) → StopsAtEnd (forward id m signals))
        → StopsAtEnd
            (elim later [ none ↦ sent | some highest' ↦ sent ++ forward id highest' signals ])
    caught_up sent none h k rest = h
    caught_up sent (some m) h k rest =
        StopsAtEnd-append sent (forward id m signals) (k m refl) (rest m)
