-- ===== src/Task/Permission.antt =====
-- task/permission.rs
use opendaemon.Prelude.{ℕ, String, Bool, true, false, Option}
use opendaemon.Task.Event.{
  TaskEvent, PermissionDecision, approve, deny, PermissionRequestEvent, PermissionDecisionEvent,
}

pub data PermissionRequestStatus : Type 0 where
  pending approved denied : PermissionRequestStatus

-- `PermissionRequestStatus::from_decision`
abbrev pub from_decision : PermissionDecision → PermissionRequestStatus
from_decision approve = approved
from_decision deny = denied

abbrev pub is_pending : PermissionRequestStatus → Bool
is_pending pending = true
is_pending _ = false

pub record PermissionRequestRecord : Type 0 where
  pub request_id : String
  pub task_id : String
  pub sequence : ℕ
  pub provider_id : String
  pub permission_kind : String
  pub status : PermissionRequestStatus
  pub request : PermissionRequestEvent
  pub response : Option PermissionDecisionEvent
  pub requested_at : String
  pub responded_at : Option String

pub record PermissionResolution : Type 0 where
  pub task_id : String
  pub request_id : String
  pub status : PermissionRequestStatus
  pub decision : PermissionDecision
  pub event : TaskEvent
  pub duplicated : Bool

pub record PermissionResponseRequest : Type 0 where
  pub request_id : String
  pub decision : PermissionDecision
  pub reason : Option String
