-- ===== src/Task/State.antt =====
-- task/state.rs: which changes of status are allowed
use mathlib.Core.Logic.{◌↔◌}
use opendaemon.Prelude.{
  ◌≡◌, refl, Bool, true, false, ◌&&◌, ◌⊎◌, if◌then◌else◌, arith, Result, ok, err,
}
use opendaemon.Task.Model.{
  TaskStatus, status_eq, is_terminal, queued, waiting_directory_lock, preparing, running, completed,
  failed, cancelled, timed_out,
}

pub data TaskTransition : Type 0 where
  changed idempotent : TaskTransition

pub data TaskStateError : Type 0 where
  invalid_transition already_terminal : TaskStateError

-- the pairs of the `matches!`
abbrev pub is_allowed : TaskStatus → TaskStatus → Bool
is_allowed queued waiting_directory_lock = true
is_allowed queued cancelled = true
is_allowed waiting_directory_lock preparing = true
is_allowed waiting_directory_lock cancelled = true
is_allowed preparing running = true
is_allowed preparing failed = true
is_allowed preparing cancelled = true
is_allowed running completed = true
is_allowed running failed = true
is_allowed running cancelled = true
is_allowed running timed_out = true
is_allowed _ _ = false

unfoldable pub validate_transition : TaskStatus → TaskStatus → Result TaskTransition TaskStateError
validate_transition current next =
    if status_eq current next && is_terminal current
    then ok idempotent
    else if is_terminal current
    then err already_terminal
    else if is_allowed current next
    then ok changed
    else err invalid_transition

-- The life of a task, as docs/tasks/phase-5-task-scheduler.md draws it.
infix 40 ◌⟶◌ ◌⟶*◌
pub data ◌⟶◌ : TaskStatus → TaskStatus → Type 0 where
  wait : queued ⟶ waiting_directory_lock
  prepare : waiting_directory_lock ⟶ preparing
  run : preparing ⟶ running
  complete : running ⟶ completed
  time_out : running ⟶ timed_out
  fail_preparing : preparing ⟶ failed
  fail_running : running ⟶ failed
  cancel : {s : TaskStatus} → is_terminal s ≡ false → s ⟶ cancelled

pub data ◌⟶*◌ : TaskStatus → TaskStatus → Type 0 where
  here : {s : TaskStatus} → s ⟶* s
  then_ : {s t u : TaskStatus} → s ⟶* t → t ⟶ u → s ⟶* u

ruleset edges = (wait, prepare, run, complete, time_out, fail_preparing, fail_running, cancel)

⟶-of_ok : (s t : TaskStatus) → validate_transition s t ≡ ok changed → s ⟶ t
unfolding validate_transition
⟶-of_ok s t h = grind (arith, edges)

ok_of-⟶ : {s t : TaskStatus} → s ⟶ t → validate_transition s t ≡ ok changed
unfolding validate_transition
ok_of-⟶ wait = refl
ok_of-⟶ prepare = refl
ok_of-⟶ run = refl
ok_of-⟶ complete = refl
ok_of-⟶ time_out = refl
ok_of-⟶ fail_preparing = refl
ok_of-⟶ fail_running = refl
ok_of-⟶ (cancel h) = ground arith

-- A change of status is accepted exactly along the edges of the documented diagram.
pub validate_transition_iff : (s t : TaskStatus) → (validate_transition s t ≡ ok changed) ↔ (s ⟶ t)
validate_transition_iff s t = (⟶-of_ok s t, ok_of-⟶)

-- From a terminal status the same status again is idempotent, and every other is refused.
pub terminal_absorbs :
    (s t : TaskStatus)
    → is_terminal s ≡ true
    → (validate_transition s t ≡ ok idempotent) × (s ≡ t)
      ⊎ (validate_transition s t ≡ err already_terminal)
unfolding validate_transition
terminal_absorbs s t h = ground arith

pub idempotent_same :
    (s t : TaskStatus) → validate_transition s t ≡ ok idempotent → (s ≡ t) × (is_terminal t ≡ true)
unfolding validate_transition
idempotent_same s t h = ground arith
