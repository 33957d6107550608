-- ===== src/Task/Event.antt =====
-- task/event.rs
use opendaemon.Prelude.{
  ℕ, String, Bool, true, false, List, [], ◌∷◌, Option, none, some, str_eq, if◌then◌else◌, ◌≡◌, refl,
}
use opendaemon.Json
use opendaemon.Json.{Value}

pub data TaskEventType : Type 0 where
  queued waiting_directory_lock preparing running completed failed cancelled timed_out :
      TaskEventType
  process_stdout process_stderr : TaskEventType
  provider_permission_requested provider_permission_decided : TaskEventType

-- `TaskEventType::as_str`; the serde names are the same
unfoldable pub as_str : TaskEventType → String
as_str queued = "task.queued"
as_str waiting_directory_lock = "task.waiting_directory_lock"
as_str preparing = "task.preparing"
as_str running = "task.running"
as_str completed = "task.completed"
as_str failed = "task.failed"
as_str cancelled = "task.cancelled"
as_str timed_out = "task.timed_out"
as_str process_stdout = "process.stdout"
as_str process_stderr = "process.stderr"
as_str provider_permission_requested = "provider.permission_requested"
as_str provider_permission_decided = "provider.permission_decided"

-- `is_terminal_event_type` of task/service.rs
abbrev pub is_terminal_event_type : TaskEventType → Bool
is_terminal_event_type completed = true
is_terminal_event_type failed = true
is_terminal_event_type cancelled = true
is_terminal_event_type timed_out = true
is_terminal_event_type _ = false

abbrev pub is_decided : TaskEventType → Bool
is_decided provider_permission_decided = true
is_decided _ = false

pub record TaskEvent : Type 0 where
  pub id : String
  pub task_id : String
  pub sequence : ℕ
  pub event_type : TaskEventType
  pub payload : Value
  pub created_at : String

pub data PermissionDecision : Type 0 where
  approve deny : PermissionDecision

-- `PermissionDecision::as_str`
abbrev pub decision_str : PermissionDecision → String
decision_str approve = "approve"
decision_str deny = "deny"

abbrev pub decision_eq : PermissionDecision → PermissionDecision → Bool
decision_eq approve approve = true
decision_eq deny deny = true
decision_eq _ _ = false

pub record PermissionRequestEvent : Type 0 where
  pub request_id : String
  pub provider_id : String
  pub permission_kind : String
  pub summary : String
  pub details : Option Value
  pub options : List PermissionDecision
  pub expires_at : Option String

pub record PermissionDecisionEvent : Type 0 where
  pub request_id : String
  pub decision : PermissionDecision
  pub reason : Option String

-- `serde_json::to_value` of the two records, by their derived `Serialize`
unfoldable pub decision_to_value : PermissionDecisionEvent → Value
decision_to_value d = Value.object (
    Json.field "request_id" (Value.string d.request_id) (
      Json.field "decision" (Value.string (decision_str d.decision))
        (Json.field "reason" (Json.from_option d.reason) Json.end)))

abbrev from_details : Option Value → Value
from_details none = Value.null
from_details (some v) = v

abbrev from_options : List PermissionDecision → Json.Items
from_options [] = Json.nil
from_options (d ∷ ds) = Json.cons (Value.string (decision_str d)) (from_options ds)

unfoldable pub request_to_value : PermissionRequestEvent → Value
request_to_value r = Value.object (
    Json.field "request_id" (Value.string r.request_id) (
      Json.field "provider_id" (Value.string r.provider_id) (
        Json.field "permission_kind" (Value.string r.permission_kind) (
          Json.field "summary" (Value.string r.summary) (
            Json.field "details" (from_details r.details) (
              Json.field "options" (Value.array (from_options r.options))
                (Json.field "expires_at" (Json.from_option r.expires_at) Json.end)))))))

abbrev read_decision : Option Value → Option PermissionDecision
read_decision (some (Value.string s)) =
    if str_eq s "approve" then some approve else if str_eq s "deny" then some deny else none
read_decision _ = none

-- an `Option<String>` field: absent and null are `None`; anything but a string is refused
abbrev read_reason : Option Value → Option (Option String)
read_reason none = some none
read_reason (some Value.null) = some none
read_reason (some (Value.string s)) = some (some s)
read_reason _ = none

abbrev read_string : Option Value → Option String
read_string (some (Value.string s)) = some s
read_string _ = none

abbrev read_event :
    Option String
    → Option PermissionDecision
    → Option (Option String)
    → Option PermissionDecisionEvent
read_event (some i) (some d) (some r) = some (record { request_id = i; decision = d; reason = r })
read_event _ _ _ = none

-- `serde_json::from_value::<PermissionDecisionEvent>`, by its derived `Deserialize`
unfoldable pub decision_from_value : Value → Option PermissionDecisionEvent
decision_from_value v =
    read_event (read_string (Json.get v "request_id")) (read_decision (Json.get v "decision"))
      (read_reason (Json.get v "reason"))

-- What a decision event carries is read back from its payload as it was written.
pub decision_from_value-decision_to_value :
    (d : PermissionDecisionEvent) → decision_from_value (decision_to_value d) ≡ some d
unfolding decision_from_value decision_to_value
decision_from_value-decision_to_value d = roundtrip d.decision d.reason
  where
    roundtrip :
        (e : PermissionDecision) (r : Option String)
        → decision_from_value
            (decision_to_value (record { request_id = d.request_id; decision = e; reason = r }))
          ≡ some (record { request_id = d.request_id; decision = e; reason = r })
    roundtrip approve none = refl
    roundtrip approve (some _) = refl
    roundtrip deny none = refl
    roundtrip deny (some _) = refl
