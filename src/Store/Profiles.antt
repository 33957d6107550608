-- ===== src/Store/Profiles.antt =====
-- store/agent_profiles.rs: reading, deleting and authorising agent profiles.
pub mod Writing
pub mod Effects
pub mod Valid
use opendaemon.Prelude.{
  String, Bool, true, false, not, ◌&&◌, ◌||◌, ◌≡◌, refl, sym, subst, ◌∙◌, ◌⊎◌, inl, Option, none,
  some, find, str_eq, eq_iff, if◌then◌else◌, Result, ok, err, arith,
}
use opendaemon.Agent.{
  WorkspaceMode, worktree, direct, AgentProfile, AgentProfileError, agent_not_found,
  agent_authorization_failed,
}
use opendaemon.Store.World.{Db}
use opendaemon.Store.Exec.{Exec, pure, ◌>>=◌, ◌>>◌, call, query, required, lift}
use opendaemon.Store.Logic.{
  Reads, Reads-bind, Reads-then, Reads-call, Reads-query, Reads-required, Reads-pure, Reads-weaken,
  Reads-lift,
}

pub data AgentStoreError : Type 0 where
  profile : AgentProfileError → AgentStoreError
  store : AgentStoreError

abbrev pub Op : Type 0 → Type 0
Op = Exec AgentStoreError

pub record AgentAuthorizationRequest : Type 0 where
  pub agent_id : String
  pub owner_product_id : String
  pub provider_id_override : Option String
  pub model_override : Option String
  pub permission_mode_override : Option String
  pub requested_workspace_mode : WorkspaceMode

abbrev pub has_id : String → AgentProfile → Bool
has_id id p = str_eq p.id id

abbrev pub profile_by_id : String → Db → Option AgentProfile
profile_by_id id db = find (has_id id) db.agent_profiles

unfoldable pub get : String → Op AgentProfile
get id = do call store; row ← query store (profile_by_id id); required (profile agent_not_found) row

-- `is_some_and(|requested| requested != actual)`
abbrev pub overrides : Option String → String → Bool
overrides none actual = false
overrides (some requested) actual = not (str_eq requested actual)

abbrev pub is_direct : WorkspaceMode → Bool
is_direct direct = true
is_direct worktree = false

-- the checks of `authorize`
unfoldable pub check : AgentAuthorizationRequest → AgentProfile → Result (Unit {0}) AgentStoreError
check request p =
    if not (str_eq p.owner_product_id request.owner_product_id)
    then err (profile agent_authorization_failed)
    else if overrides request.provider_id_override p.provider_id
        || overrides request.model_override p.model
        || overrides request.permission_mode_override p.provider_config.permission_mode
    then err (profile agent_authorization_failed)
    else if is_direct request.requested_workspace_mode
        && not p.execution_policy.allow_direct_directory
    then err (profile agent_authorization_failed)
    else ok tt

unfoldable pub authorize : AgentAuthorizationRequest → Op AgentProfile
authorize request = do p ← get request.agent_id; lift (check request p); pure p

pub Reads-get : (id : String) → Reads (λ d p. profile_by_id id d ≡ some p) (get id)
unfolding get
Reads-get id =
    Reads-weaken _ (λ d g h. sym h.1 ∙ h.2)
      (Reads-then (call store) _ (Reads-call store) (
        Reads-bind (query store (profile_by_id id)) _ (Reads-query store (profile_by_id id))
          λ row. Reads-required (profile agent_not_found) row))

-- an override names what the profile says already
abbrev pub Agrees : Option String → String → Type 0
Agrees requested actual = (requested ≡ none) ⊎ (requested ≡ some actual)

pub Agrees-overrides :
    (requested : Option String) (actual : String)
    → overrides requested actual ≡ false
    → Agrees requested actual
Agrees-overrides none actual h = inl refl
Agrees-overrides (some s) actual h = ground (arith, eq_iff s actual)

pub record Allows (p : AgentProfile) (r : AgentAuthorizationRequest) : Type 0 where
  pub owner : p.owner_product_id ≡ r.owner_product_id
  pub provider : Agrees r.provider_id_override p.provider_id
  pub model : Agrees r.model_override p.model
  pub permission_mode : Agrees r.permission_mode_override p.provider_config.permission_mode
  pub direct_mode :
      (r.requested_workspace_mode ≡ worktree) ⊎ (p.execution_policy.allow_direct_directory ≡ true)

check-eq-ok : (r : AgentAuthorizationRequest) (p : AgentProfile) → check r p ≡ ok tt → Allows p r
unfolding check
check-eq-ok r p h = record {
  owner = ground (arith, eq_iff p.owner_product_id r.owner_product_id);
  provider = Agrees-overrides r.provider_id_override p.provider_id (ground arith);
  model = Agrees-overrides r.model_override p.model (ground arith);
  permission_mode =
      Agrees-overrides r.permission_mode_override p.provider_config.permission_mode (ground arith);
  direct_mode = ground arith;
}

-- `authorize` changes nothing, and returns the profile of that id only if it belongs to the product
-- that asks, no override differs from it, and it allows direct mode where that is asked for.
pub Reads-authorize_profile :
    (r : AgentAuthorizationRequest)
    → Reads (λ d p. (profile_by_id r.agent_id d ≡ some p) × Allows p r) (authorize r)
unfolding authorize
Reads-authorize_profile r = Reads-weaken _ found (
    Reads-bind (get r.agent_id) _ (Reads-get r.agent_id)
      λ p. Reads-bind (lift (check r p)) _ (Reads-lift (check r p)) λ _. Reads-pure p)
  where
    found :
        (d : Db) (p : AgentProfile)
        → (p' : AgentProfile) × (profile_by_id r.agent_id d ≡ some p')
          × ((u : Unit {0}) × (check r p' ≡ ok u) × (p ≡ p'))
        → (profile_by_id r.agent_id d ≡ some p) × Allows p r
    found d p (p', q, (tt, allowed, e)) =
        subst (λ x. (profile_by_id r.agent_id d ≡ some x) × Allows x r) (sym e)
          (q, check-eq-ok r p' allowed)
