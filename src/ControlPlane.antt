-- ===== src/ControlPlane.antt =====
-- control_plane/model.rs, protocol.rs and liveness.rs: what the daemon and its control plane tell
-- each other, the row that the registration leaves (with its status as text, as
-- store/daemon_state.rs keeps it), and when the connection counts as lost.
pub mod Liveness
pub mod Registration
pub mod Dispatch
pub mod Client
use opendaemon.Prelude.{
  ℕ, ◌-◌, ◌/◌, String, Bool, true, false, ◌&&◌, ◌||◌, not, ltb, List, Option, none, some, is_none,
  if◌then◌else◌,
}
use opendaemon.Json.{Value}
use opendaemon.Runtime.{RuntimeKind, RuntimeStatus}

pub data DaemonConnectionStatus : Type 0 where
  online offline connecting error : DaemonConnectionStatus

pub record DaemonRegistrationRecord : Type 0 where
  pub daemon_id : String
  pub control_plane_url : String
  pub daemon_token : String
  pub status : DaemonConnectionStatus
  pub registered_at : String
  pub last_heartbeat_at : Option String
  pub last_error_code : Option String
  pub session_id : Option String

-- a row of the table `daemon_state`
pub record DaemonStateRow : Type 0 where
  pub daemon_id : String
  pub control_plane_url : String
  pub daemon_token : String
  pub status : String
  pub registered_at : String
  pub last_heartbeat_at : Option String
  pub last_error_code : Option String
  pub session_id : Option String

pub record DaemonRuntimeSummary : Type 0 where
  pub provider_id : String
  pub kind : RuntimeKind
  pub status : RuntimeStatus

pub record DaemonRegistrationRequest : Type 0 where
  pub daemon_id : Option String
  pub session_id : Option String
  pub enrollment_secret : String
  pub daemon_version : String
  pub platform : String
  pub capabilities : List String
  pub runtimes : List DaemonRuntimeSummary

pub record DaemonRegistrationAccepted : Type 0 where
  pub daemon_id : String
  pub daemon_token : String
  pub session_id : Option String
  pub registered_at : String

pub record RemoteDispatchTask : Type 0 where
  pub remote_task_id : String
  pub owner_product_id : String
  pub agent_id : String
  pub directory_id : String
  pub prompt : String
  pub required_capabilities : List String
  pub workspace_mode : String
  pub timeout_seconds : Option ℕ
  pub task_token : String
  pub metadata : Value

-- config/mod.rs: `ControlPlaneConfig`, its durations in seconds
pub record ControlPlaneConfig : Type 0 where
  pub endpoint : Option String
  pub enrollment_secret : Option String
  pub heartbeat_interval : ℕ
  pub staleness_threshold : ℕ

unfoldable pub enabled : ControlPlaneConfig → Bool
enabled c = not (is_none c.endpoint) && not (is_none c.enrollment_secret)

-- `LivenessTracker::evaluate`. `parse` is `OffsetDateTime::parse` of an RFC 3339 text: the
-- nanoseconds from an instant before every one that such a text can name.
module _ (parse : String → Option ℕ) where
  -- `elapsed.whole_seconds() < threshold.as_secs() as i64`, for an `elapsed` that is not negative:
  -- a threshold of 2⁶³ seconds or more is negative as an i64
  abbrev pub is_recent : ℕ → ℕ → Bool
  is_recent elapsed threshold =
      ltb threshold 0x8000000000000000 && ltb (elapsed / 1000000000) threshold

  abbrev pub evaluate_at : ℕ → ℕ → ℕ → DaemonConnectionStatus → DaemonConnectionStatus
  evaluate_at threshold last now current =
      if ltb now last || is_recent (now - last) threshold
      then current
      else DaemonConnectionStatus.offline

  abbrev pub evaluate_from :
      ℕ → Option ℕ → Option ℕ → DaemonConnectionStatus → DaemonConnectionStatus
  evaluate_from threshold none now current = DaemonConnectionStatus.offline
  evaluate_from threshold (some last) none current = current
  evaluate_from threshold (some last) (some now) current = evaluate_at threshold last now current

  unfoldable pub evaluate :
      ℕ → Option String → String → DaemonConnectionStatus → DaemonConnectionStatus
  evaluate threshold none now current = DaemonConnectionStatus.offline
  evaluate threshold (some last) now current =
      evaluate_from threshold (parse last) (parse now) current
