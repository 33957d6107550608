-- ===== src/ControlPlane/Registration.antt =====
-- control_plane/registration.rs. The version and the platform of the build are arguments.
use opendaemon.Prelude.{
  String, false, not, ◌&&◌, Bool-cases, List, [], ◌∷◌, ◌≡◌, ◌≢◌, inl, inr, Option, none, some,
  if◌then◌else◌, Result, ok, err, arith, is_none,
}
use opendaemon.ControlPlane.{
  ControlPlaneConfig, DaemonRegistrationRecord, DaemonRegistrationRequest,
  DaemonRegistrationAccepted, DaemonRuntimeSummary, online, enabled,
}
use opendaemon.Store.World.{World}
use opendaemon.Store.Exec.{Exec, pure, raise, ◌>>=◌, continue, map_err, required}
use opendaemon.Store.Logic.{Ensures, Ensures-read, Ensures-weaken, Reads-required}
use opendaemon.Store.Logic.Writes.{Ensures-map_err}
use opendaemon.Store.DaemonState.{
  DaemonStateStoreError, get_current, save_registration, row_of, upsert,
}
use opendaemon.Store.DaemonState.Effects.{save_registration_effect}

-- `panic` stands for the `expect` of an endpoint or a secret that is not configured
pub data DaemonRegistrationError : Type 0 where
  control_plane_disabled panic : DaemonRegistrationError
  store : DaemonStateStoreError → DaemonRegistrationError

abbrev pub Op : Type 0 → Type 0
Op = Exec DaemonRegistrationError

-- the record, none where there is no row
abbrev pub optional :
    Result DaemonRegistrationRecord DaemonStateStoreError
    → Result (Option DaemonRegistrationRecord) DaemonRegistrationError
optional (ok r) = ok (some r)
optional (err DaemonStateStoreError.not_found) = ok none
optional (err DaemonStateStoreError.store) = err (store DaemonStateStoreError.store)

unfoldable pub current_record : Op (Option DaemonRegistrationRecord)
current_record w = let (r, w') = get_current w in (optional r, w')

abbrev pub daemon_id_of : Option DaemonRegistrationRecord → Option String
daemon_id_of none = none
daemon_id_of (some r) = some r.daemon_id

abbrev pub session_id_of : Option DaemonRegistrationRecord → Option String
session_id_of none = none
session_id_of (some r) = r.session_id

module _ (config : ControlPlaneConfig) where
  unfoldable pub request_of :
      String
      → String
      → List DaemonRuntimeSummary
      → Option DaemonRegistrationRecord
      → Op DaemonRegistrationRequest
  unfolding ◌>>=◌ pure required
  request_of version platform runtimes persisted = do
    secret ← required panic config.enrollment_secret
    pure (record {
      daemon_id = daemon_id_of persisted;
      session_id = session_id_of persisted;
      enrollment_secret = secret;
      daemon_version = version;
      platform = platform;
      capabilities = "task_dispatch" ∷ "task_cancel" ∷ "runtime_status" ∷ [];
      runtimes = runtimes;
    })

  unfoldable pub build_registration_request :
      String → String → List DaemonRuntimeSummary → Op DaemonRegistrationRequest
  unfolding ◌>>=◌ raise current_record enabled
  build_registration_request version platform runtimes =
      if not (enabled config)
      then raise control_plane_disabled
      else current_record >>= request_of version platform runtimes

  abbrev pub accepted_record : DaemonRegistrationAccepted → String → DaemonRegistrationRecord
  accepted_record a endpoint = record {
    daemon_id = a.daemon_id;
    control_plane_url = endpoint;
    daemon_token = a.daemon_token;
    status = online;
    registered_at = a.registered_at;
    last_heartbeat_at = some a.registered_at;
    last_error_code = none;
    session_id = a.session_id;
  }

  unfoldable pub accept : DaemonRegistrationAccepted → Op DaemonRegistrationRecord
  accept a = do
    endpoint ← required panic config.endpoint
    map_err store (save_registration (accepted_record a endpoint))

  -- `accept` stores and returns the record of what was accepted, online from its registration on and
  -- with the configured endpoint; where it fails, nothing changed, or (the failure being in reading
  -- the row back) that record was stored.
  pub accept_effect :
      (a : DaemonRegistrationAccepted)
      → Ensures
          (λ _. Unit)
          (λ d r d'.
            (endpoint : String) × (config.endpoint ≡ some endpoint)
            × (r ≡ accepted_record a endpoint)
            × (d' ≡ upsert (row_of (accepted_record a endpoint)) d))
          (λ d d'.
            (endpoint : String) × (config.endpoint ≡ some endpoint)
            × (d' ≡ upsert (row_of (accepted_record a endpoint)) d))
          (accept a)
  unfolding accept
  accept_effect a =
      Ensures-read {Pre = λ _. Unit} (required panic config.endpoint) _
        (Reads-required panic config.endpoint)
        λ endpoint.
          Ensures-weaken _ (λ d q. tt) (λ d r d' q h. (endpoint, q.1, h.0, h.1))
            (λ d d' q h. (endpoint, q.1, h))
            (Ensures-map_err store _ (save_registration_effect (accepted_record a endpoint)))

  request_of_lem :
      (version platform : String) (runtimes : List DaemonRuntimeSummary)
      (p : Option DaemonRegistrationRecord) (w : World)
      → is_none config.enrollment_secret ≡ false
      → (request_of version platform runtimes p w).0 ≢ err panic
  unfolding request_of
  request_of_lem version platform runtimes p w h e = ground arith

  -- `build_registration_request` never reaches the `expect` of a secret that is missing.
  pub build_registration_request_lem :
      (version platform : String) (runtimes : List DaemonRuntimeSummary) (w : World)
      → (build_registration_request version platform runtimes w).0 ≢ err panic
  unfolding build_registration_request enabled
  build_registration_request_lem version platform runtimes w =
      elim (Bool-cases (not (is_none config.endpoint) && not (is_none config.enrollment_secret))) [
        | inl e ↦ rw e (go (get_current w).0 (get_current w).1 (ground (arith, e)))
        | inr e ↦ rw e (λ h. cc)
      ]
    where
      go :
          (r : Result DaemonRegistrationRecord DaemonStateStoreError) (w' : World)
          → is_none config.enrollment_secret ≡ false
          → (continue (optional r) (request_of version platform runtimes) w').0 ≢ err panic
      go (ok r) w' h = request_of_lem version platform runtimes (some r) w' h
      go (err DaemonStateStoreError.not_found) w' h =
          request_of_lem version platform runtimes none w' h
      go (err DaemonStateStoreError.store) w' h = λ e. cc
