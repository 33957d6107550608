-- ===== src/Store/DaemonState.antt =====
-- store/daemon_state.rs: the registrations at control planes. The proofs are in the child Effects.
pub mod Effects
use opendaemon.Prelude.{
  String, Bool, List, [], ◌∷◌, ◌++◌, Option, none, some, any, find, update_where, str_eq,
  if◌then◌else◌, Result, ok, err,
}
use opendaemon.ControlPlane.{
  DaemonConnectionStatus, DaemonRegistrationRecord, DaemonStateRow, online, offline, connecting,
}
use opendaemon.Store.World.{Db}
use opendaemon.Store.Exec.{Exec, pure, ◌>>=◌, ◌>>◌, call, query, statement, required, lift}

pub data DaemonStateStoreError : Type 0 where
  not_found store : DaemonStateStoreError

abbrev pub Op : Type 0 → Type 0
Op = Exec DaemonStateStoreError

unfoldable pub serialize_status : DaemonConnectionStatus → String
serialize_status online = "online"
serialize_status offline = "offline"
serialize_status connecting = "connecting"
serialize_status DaemonConnectionStatus.error = "error"

unfoldable pub deserialize_status : String → Result DaemonConnectionStatus DaemonStateStoreError
deserialize_status status =
    if str_eq status "online"
    then ok online
    else if str_eq status "offline"
    then ok offline
    else if str_eq status "connecting"
    then ok connecting
    else if str_eq status "error"
    then ok DaemonConnectionStatus.error
    else err store

-- the columns that a record is written to
unfoldable pub row_of : DaemonRegistrationRecord → DaemonStateRow
unfolding serialize_status
row_of r = record {
  daemon_id = r.daemon_id;
  control_plane_url = r.control_plane_url;
  daemon_token = r.daemon_token;
  status = serialize_status r.status;
  registered_at = r.registered_at;
  last_heartbeat_at = r.last_heartbeat_at;
  last_error_code = r.last_error_code;
  session_id = r.session_id;
}

abbrev pub with_status :
    DaemonStateRow
    → Result DaemonConnectionStatus DaemonStateStoreError
    → Result DaemonRegistrationRecord DaemonStateStoreError
with_status row (err e) = err store
with_status row (ok status) = ok (record {
  daemon_id = row.daemon_id;
  control_plane_url = row.control_plane_url;
  daemon_token = row.daemon_token;
  status = status;
  registered_at = row.registered_at;
  last_heartbeat_at = row.last_heartbeat_at;
  last_error_code = row.last_error_code;
  session_id = row.session_id;
})

unfoldable pub row_to_record :
    DaemonStateRow → Result DaemonRegistrationRecord DaemonStateStoreError
unfolding deserialize_status
row_to_record row = with_status row (deserialize_status row.status)

abbrev pub has_id : String → DaemonStateRow → Bool
has_id id r = str_eq r.daemon_id id

abbrev pub first : List DaemonStateRow → Option DaemonStateRow
first [] = none
first (r ∷ rs) = some r

unfoldable pub get : String → Op DaemonRegistrationRecord
get id = do
  call store
  row ← query store (λ db. find (has_id id) db.daemon_state)
  r ← required not_found row
  lift (row_to_record r)

unfoldable pub get_current : Op DaemonRegistrationRecord
get_current = do
  call store
  row ← query store (λ db. first db.daemon_state)
  r ← required not_found row
  lift (row_to_record r)

-- `INSERT … ON CONFLICT(daemon_id) DO UPDATE`, which sets every other column
unfoldable pub upsert : DaemonStateRow → Db → Db
upsert r db = record db {
  daemon_state =
      if any (has_id r.daemon_id) db.daemon_state
      then update_where (has_id r.daemon_id) (λ old. r) db.daemon_state
      else db.daemon_state ++ r ∷ [];
}

unfoldable pub save_registration : DaemonRegistrationRecord → Op DaemonRegistrationRecord
save_registration r = do call store; statement store (upsert (row_of r)); get r.daemon_id

unfoldable pub beat : String → String → DaemonConnectionStatus → Db → Db
unfolding serialize_status
beat id at status db = record db {
  daemon_state =
      update_where (has_id id)
        (λ r. record r { last_heartbeat_at = some at; status = serialize_status status })
        db.daemon_state;
}

unfoldable pub mark_heartbeat :
    String → String → DaemonConnectionStatus → Op DaemonRegistrationRecord
mark_heartbeat id at status = do call store; statement store (beat id at status); get id
