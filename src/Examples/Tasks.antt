-- ===== src/Examples/Tasks.antt =====
-- The operations on the tasks of the small daemon.
use opendaemon.Prelude.{◌≡◌, ◌↔◌, some, none, ok}
use opendaemon.Json.{empty_object}
use opendaemon.Task.Model.{TaskStatus}
use opendaemon.Task.State.{changed, validate_transition, ◌⟶◌, validate_transition_iff}
use opendaemon.Task.Event.{
  PermissionDecision, PermissionDecisionEvent, decision_from_value, decision_to_value,
  decision_from_value-decision_to_value,
}
use opendaemon.Store.Logic.{Ensures}
use opendaemon.Store.Tasks
use opendaemon.Store.Tasks.Moves.{Moved, Transitioned, transition_effect}
use opendaemon.Store.Permissions
use opendaemon.Store.Permissions.{decision_of}
use opendaemon.Store.Permissions.Answers.{Decided, Answer, resolve_permission_request_effect}
use opendaemon.Store.Locks
use opendaemon.Store.Locks.Effects.{Acquired, Answered, acquire_lock_effect}
use opendaemon.Examples.{a_lock_request}

validate_transition_iff_example :
    (validate_transition TaskStatus.queued TaskStatus.waiting_directory_lock ≡ ok changed)
    ↔ (TaskStatus.queued ⟶ TaskStatus.waiting_directory_lock)
validate_transition_iff_example =
    validate_transition_iff TaskStatus.queued TaskStatus.waiting_directory_lock

abbrev a_decision : PermissionDecisionEvent
a_decision = record { request_id = "req_1"; decision = PermissionDecision.deny; reason = some "no" }

decision_from_value-decision_to_value_example :
    decision_from_value (decision_to_value a_decision) ≡ some a_decision
decision_from_value-decision_to_value_example = decision_from_value-decision_to_value a_decision

transition_effect_example :
    Ensures
      (λ _. Unit)
      (Transitioned "task_1" TaskStatus.completed empty_object)
      (Moved "task_1" TaskStatus.completed empty_object)
      (Tasks.transition "task_1" TaskStatus.completed none)
transition_effect_example = transition_effect "task_1" TaskStatus.completed none

resolve_permission_request_effect_example :
    Ensures
      (λ _. Unit)
      (Answer "task_1" (decision_of "req_1" PermissionDecision.approve none))
      (Decided "task_1" (decision_of "req_1" PermissionDecision.approve none))
      (Permissions.resolve_permission_request "task_1" "req_1" PermissionDecision.approve none)
resolve_permission_request_effect_example =
    resolve_permission_request_effect "task_1" "req_1" PermissionDecision.approve none

acquire_lock_effect_example :
    Ensures
      (λ _. Unit)
      (Answered a_lock_request)
      (Acquired a_lock_request)
      (Locks.acquire_lock a_lock_request)
acquire_lock_effect_example = acquire_lock_effect a_lock_request
