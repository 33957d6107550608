-- ===== src/Api/Events.antt =====
-- task/service.rs: cursors, the waiters of permission decisions, and the responses to requests.
pub mod Cursors
use Prim.Native.Char.{Char, code}
use opendaemon.Prelude.{
  ℕ, ◌+◌, ◌-◌, ◌*◌, ◌==◌, ltb, leb, String, Bool, true, false, not, ◌&&◌, List, [], ◌∷◌, ◌++◌,
  Option, none, some, any, str_eq, if◌then◌else◌, Result, ok, err,
}
use opendaemon.Task.Event.{
  TaskEvent, PermissionDecision, PermissionDecisionEvent, decision_from_value,
}
use opendaemon.Task.Permission.{
  PermissionRequestRecord, PermissionResolution, PermissionResponseRequest, is_pending,
}
use opendaemon.Store.World.{World}
use opendaemon.Store.Exec.{Exec, pure, raise, lift, required, ◌>>=◌, ◌>>◌, map_err}
use opendaemon.Store.Tasks.{TaskStoreError}
use opendaemon.Store.Permissions

-- a payload that cannot be read carries no text
pub data TaskEventServiceError : Type 0 where
  invalid_cursor invalid_event_request invalid_permission_decision : TaskEventServiceError
  permission_response_not_supported store_payload : TaskEventServiceError
  task : TaskStoreError → TaskEventServiceError

abbrev pub Op : Type 0 → Type 0
Op = Exec TaskEventServiceError

abbrev pub is_digit : Char → Bool
is_digit c = leb 48 (code c) && leb (code c) 57

-- `str::parse::<i64>`, where it gives no negative number: an optional sign, and at least one digit;
-- a number of 2⁶³ or more does not fit
unfoldable pub read_digits : ℕ → String → Option ℕ
read_digits n String.[] = some n
read_digits n (String.◌∷◌ c s) =
    let rest = read_digits (n * 10 + (code c - 48)) s in if is_digit c then rest else none

abbrev pub read_number : String → Option ℕ
read_number String.[] = none
read_number (String.◌∷◌ c s) = read_digits 0 (String.◌∷◌ c s)

abbrev pub fitting : Option ℕ → Option ℕ
fitting none = none
fitting (some n) = if ltb n 0x8000000000000000 then some n else none

-- behind a minus sign only zero is not negative
abbrev pub zero_only : Option ℕ → Option ℕ
zero_only none = none
zero_only (some n) = if n == 0 then some 0 else none

unfoldable pub parse_i64 : String → Option ℕ
unfolding read_digits
parse_i64 String.[] = none
parse_i64 (String.◌∷◌ c s) =
    if code c == 43
    then fitting (read_number s)
    else if code c == 45
    then zero_only (read_number s)
    else fitting (read_number (String.◌∷◌ c s))

-- `cursor.or(last_event_id).unwrap_or("0")`
abbrev pub raw_cursor : Option String → Option String → String
raw_cursor (some cursor) last_event_id = cursor
raw_cursor none (some id) = id
raw_cursor none none = "0"

abbrev pub or_invalid : Option ℕ → Result ℕ TaskEventServiceError
or_invalid none = err invalid_cursor
or_invalid (some n) = ok n

unfoldable pub parse_cursor : Option String → Option String → Result ℕ TaskEventServiceError
parse_cursor cursor last_event_id = or_invalid (parse_i64 (raw_cursor cursor last_event_id))

-- the bus: its waiters are the keys of its map
abbrev pub is_waiter : String → String → String × String → Bool
is_waiter task_id request_id k = str_eq k.0 task_id && str_eq k.1 request_id

abbrev pub has_waiter : String → String → World → Bool
has_waiter task_id request_id w = any (is_waiter task_id request_id) w.waiters

abbrev pub without : String → String → List (String × String) → List (String × String)
without task_id request_id [] = []
without task_id request_id (k ∷ ks) =
    let rest = without task_id request_id ks in
    if is_waiter task_id request_id k then rest else k ∷ rest

-- `insert` of a key that is there replaces its sender
unfoldable pub register_waiter : String → String → World → World
register_waiter task_id request_id w = record w {
  waiters = (task_id, request_id) ∷ without task_id request_id w.waiters;
}

unfoldable pub notify_permission_resolution : String → PermissionDecisionEvent → World → World
notify_permission_resolution task_id decision w = record w {
  waiters = without task_id decision.request_id w.waiters;
}

unfoldable pub publish : TaskEvent → World → World
publish e w = record w { sent = w.sent ++ e ∷ [] }

-- `await_permission_decision` up to the wait: the decision that was made before, or none where a
-- waiter is registered
unfoldable pub begin_await :
    String → String → PermissionRequestRecord → Op (Option PermissionDecisionEvent)
unfolding register_waiter raise pure
begin_await task_id request_id request =
    if is_pending request.status
    then (λ w. (ok none, register_waiter task_id request_id w))
    else elim request.response [
      | none ↦ raise (task TaskStoreError.permission_request_not_pending)
      | some decision ↦ pure (some decision)
    ]

unfoldable pub await_permission_decision : String → String → Op (Option PermissionDecisionEvent)
await_permission_decision task_id request_id = do
  request ← map_err task (Permissions.get_permission_request task_id request_id)
  begin_await task_id request_id request

-- a pending request that nobody waits for is not answered
unfoldable pub refuse_unheard : String → String → PermissionRequestRecord → Op (Unit {0})
refuse_unheard task_id request_id existing w =
    if is_pending existing.status && not (has_waiter task_id request_id w)
    then (err permission_response_not_supported, w)
    else (ok tt, w)

abbrev pub published : Bool → TaskEvent → World → World
published duplicated e w = if duplicated then w else publish e w

-- what follows the resolution: its event is published, and the waiter is told
unfoldable pub announce :
    String → PermissionResolution → PermissionDecisionEvent → Op PermissionResolution
unfolding notify_permission_resolution publish
announce task_id r decided w =
    (ok r, notify_permission_resolution task_id decided (published r.duplicated r.event w))

unfoldable pub resolve_permission_response :
    String → PermissionResponseRequest → Op PermissionResolution
resolve_permission_response task_id response = do
  existing ← map_err task (Permissions.get_permission_request task_id response.request_id)
  refuse_unheard task_id response.request_id existing
  resolution ← map_err task (
      Permissions.resolve_permission_request task_id response.request_id response.decision
        response.reason)
  decided ← required store_payload (decision_from_value resolution.event.payload)
  announce task_id resolution decided
