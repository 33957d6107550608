-- ===== src/ControlPlane/Liveness.antt =====
-- `LivenessTracker::evaluate` of control_plane/liveness.rs: when the connection counts as lost.
use opendaemon.Prelude.{ℕ, ◌+◌, ◌*◌, ◌≤◌, ◌<◌, ◌≡◌, ◌≢◌, ◌⊎◌, String, Option, some, arith, ◌↔◌}
use opendaemon.ControlPlane.{DaemonConnectionStatus, evaluate}

module _ (parse : String → Option ℕ) (threshold : ℕ) where
  -- For a connection that is not offline yet, with readable times and a threshold below 2⁶³ seconds:
  -- `evaluate` says offline just when the last heartbeat lies at least the threshold in the past, in
  -- whole seconds; otherwise it leaves the status as it is.
  pub evaluate_iff :
      (last now : String) (l n : ℕ) (current : DaemonConnectionStatus)
      → threshold < 0x8000000000000000
      → parse last ≡ some l
      → parse now ≡ some n
      → current ≢ DaemonConnectionStatus.offline
      → ((evaluate parse threshold (some last) now current ≡ DaemonConnectionStatus.offline)
          ↔ (l + threshold * 1000000000 ≤ n))
        × ((evaluate parse threshold (some last) now current ≡ DaemonConnectionStatus.offline)
            ⊎ (evaluate parse threshold (some last) now current ≡ current))
  unfolding evaluate
  evaluate_iff last now l n current small el en live =
      rw (el, en) ((λ h. ground arith, λ h. ground arith), ground arith)
