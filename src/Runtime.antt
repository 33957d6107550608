-- ===== src/Runtime.antt =====
-- runtime/model.rs, runtime/store.rs: the runtimes of providers, and the store that keeps the last
-- view of each. The child Template models runtime/template.rs.
pub mod Template
use opendaemon.Prelude.{
  String, Bool, true, false, not, ◌&&◌, ◌≡◌, ◌≢◌, refl, List, [], ◌∷◌, Option, none, some, find,
  str_eq, eq_refl, is_none, if◌then◌else◌, arith,
}
use opendaemon.Registry.{IntegrationType, cli, acp, http, native}

pub data RuntimeKind : Type 0 where
  local_cli local_acp remote_http : RuntimeKind

pub data RuntimeStatus : Type 0 where
  not_detected available unavailable error : RuntimeStatus

pub record RuntimeError : Type 0 where
  pub code : String
  pub message : String

pub record RuntimeView : Type 0 where
  pub id : String
  pub provider_id : String
  pub kind : RuntimeKind
  pub status : RuntimeStatus
  pub executable : Option String
  pub version : Option String
  pub detected_at : Option String
  pub error : Option RuntimeError

-- `RuntimeStore`, whose map holds one view for each provider
abbrev pub RuntimeStore : Type 0
RuntimeStore = List RuntimeView

abbrev pub of_provider : String → RuntimeView → Bool
of_provider id v = str_eq v.provider_id id

unfoldable pub save : RuntimeView → RuntimeStore → RuntimeStore
save v [] = v ∷ []
save v (u ∷ us) =
    let rest = save v us in if str_eq u.provider_id v.provider_id then v ∷ us else u ∷ rest

unfoldable pub save_all : List RuntimeView → RuntimeStore → RuntimeStore
unfolding save
save_all [] s = s
save_all (v ∷ vs) s = save_all vs (save v s)

unfoldable pub get : RuntimeStore → String → Option RuntimeView
get s id = find (of_provider id) s

-- The view that was saved last for a provider is the one that is answered for it.
pub get-save : (v : RuntimeView) (s : RuntimeStore) → get (save v s) v.provider_id ≡ some v
unfolding get save
get-save v [] = ground (arith, eq_refl v.provider_id)
get-save v (u ∷ us) = ground (arith, eq_refl v.provider_id, get-save v us)

abbrev is_available : RuntimeStatus → Bool
is_available available = true
is_available _ = false

abbrev is_cli : RuntimeKind → Bool
is_cli local_cli = true
is_cli _ = false

abbrev is_acp : RuntimeKind → Bool
is_acp local_acp = true
is_acp _ = false

abbrev is_http : RuntimeKind → Bool
is_http remote_http = true
is_http _ = false

abbrev fits : RuntimeView → IntegrationType → Bool
fits v cli = is_cli v.kind && not (is_none v.executable)
fits v acp = is_acp v.kind && not (is_none v.executable)
fits v http = is_http v.kind
fits v native = false

-- `runtime_available` of scheduler/execution.rs
unfoldable pub runtime_available : RuntimeView → IntegrationType → Bool
runtime_available v t = is_available v.status && fits v t

pub runtime_available_lem :
    (v : RuntimeView) (t : IntegrationType)
    → runtime_available v t ≡ true
    → (v.status ≡ available) × (t ≢ native)
unfolding runtime_available
runtime_available_lem v cli h = (ground (arith, h), λ e. cc)
runtime_available_lem v acp h = (ground (arith, h), λ e. cc)
runtime_available_lem v http h = (ground (arith, h), λ e. cc)
runtime_available_lem v native h = absurd (ground (arith, h))
