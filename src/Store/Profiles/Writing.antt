-- ===== src/Store/Profiles/Writing.antt =====
-- store/agent_profiles.rs: creating, listing, patching and deleting agent profiles. The proofs are
-- in Effects.
use opendaemon.Prelude.{
  String, Bool, true, false, not, ◌&&◌, List, [], ◌∷◌, ◌++◌, Option, none, some, any, select,
  update_where, str_eq, unwrap_or, is_none, if◌then◌else◌, Result, ok, err,
}
use opendaemon.Agent.{
  AgentProfile, CreateAgentProfile, ExecutionPolicy, ProviderConfig, into_profile, agent_not_found,
  invalid_agent_profile,
}
use opendaemon.Agent.Validate.{validate}
use opendaemon.Store.World.{Db}
use opendaemon.Store.Exec.{
  pure, raise, ◌>>=◌, ◌>>◌, call, query, statement, refusable, now_rfc3339, transaction, lift,
  map_err,
}
use opendaemon.Store.Profiles.{AgentStoreError, profile, store, Op, has_id, get}

pub record AgentProfileFilters : Type 0 where
  pub owner_product_id : Option String
  pub provider_id : Option String

pub record PatchAgentProfile : Type 0 where
  pub name : Option String
  pub provider_id : Option String
  pub model : Option String
  pub instructions : Option (Option String)
  pub execution_policy : Option ExecutionPolicy
  pub provider_config : Option ProviderConfig

abbrev pub profile_now : Op String
profile_now = now_rfc3339 (profile invalid_agent_profile)

-- the new row; `map_sqlite_write_error` of a constraint
abbrev pub insert_profile : AgentProfile → Db → Result Db AgentStoreError
insert_profile p db =
    if any (has_id p.id) db.agent_profiles
    then err (profile invalid_agent_profile)
    else ok (record db { agent_profiles = db.agent_profiles ++ p ∷ [] })

unfoldable pub write_profile : AgentProfile → Op (Unit {0})
unfolding transaction refusable ◌>>=◌ call
write_profile p = transaction (do refusable store (insert_profile p); call store)

unfoldable pub create : CreateAgentProfile → Op AgentProfile
create input = do
  map_err profile (lift (validate input))
  now ← profile_now
  call store
  call store
  write_profile (into_profile input now now)
  get input.id

abbrev pub is_none_or : Option String → String → Bool
is_none_or none actual = true
is_none_or (some wanted) actual = str_eq actual wanted

-- the `WHERE` clause of the four queries of `list`
unfoldable pub matches : AgentProfileFilters → AgentProfile → Bool
matches f p =
    is_none_or f.owner_product_id p.owner_product_id && is_none_or f.provider_id p.provider_id

unfoldable pub list : AgentProfileFilters → Op (List AgentProfile)
list f = do call store; query store (λ db. select (matches f) db.agent_profiles)

-- the test at the top of `patch`
abbrev pub sets_nothing : PatchAgentProfile → Bool
sets_nothing p =
    is_none p.name
    && is_none p.provider_id
    && is_none p.model
    && is_none p.instructions
    && is_none p.execution_policy
    && is_none p.provider_config

-- the profile that `patch` builds from the current one
abbrev pub patched : PatchAgentProfile → AgentProfile → CreateAgentProfile
patched p current = record {
  id = current.id;
  name = unwrap_or current.name p.name;
  owner_product_id = current.owner_product_id;
  provider_id = unwrap_or current.provider_id p.provider_id;
  model = unwrap_or current.model p.model;
  instructions = unwrap_or current.instructions p.instructions;
  execution_policy = unwrap_or current.execution_policy p.execution_policy;
  provider_config = unwrap_or current.provider_config p.provider_config;
}

-- the columns that `UPDATE agent_profiles` sets
abbrev pub set_columns : CreateAgentProfile → String → AgentProfile → AgentProfile
set_columns next now row = record row {
  name = next.name;
  provider_id = next.provider_id;
  model = next.model;
  instructions = next.instructions;
  execution_policy = next.execution_policy;
  provider_config = next.provider_config;
  updated_at = now;
}

unfoldable pub update_profile : String → CreateAgentProfile → String → Db → Db
update_profile id next now db = record db {
  agent_profiles = update_where (has_id id) (set_columns next now) db.agent_profiles;
}

unfoldable pub write_update : String → CreateAgentProfile → String → Op (Unit {0})
unfolding transaction statement ◌>>=◌ call
write_update id next now = transaction (do statement store (update_profile id next now); call store)

unfoldable pub patch_current : String → PatchAgentProfile → Op AgentProfile
patch_current id p = do
  current ← get id
  map_err profile (lift (validate (patched p current)))
  now ← profile_now
  call store
  call store
  write_update id (patched p current) now
  get id

unfoldable pub patch : String → PatchAgentProfile → Op AgentProfile
patch id p = if sets_nothing p then raise (profile invalid_agent_profile) else patch_current id p

abbrev pub delete_profile : String → Db → Db
delete_profile id db = record db {
  agent_profiles = select (λ p. not (has_id id p)) db.agent_profiles;
}

-- the transaction of `delete`, which returns whether a row was there
unfoldable pub delete_rows : String → Op Bool
unfolding transaction statement ◌>>=◌ call pure
delete_rows id = transaction (do
  changed ← (λ w. (ok (any (has_id id) w.db.agent_profiles), w))
  statement store (delete_profile id)
  call store
  pure changed)

abbrev pub deleted : Bool → Op (Unit {0})
deleted true = pure tt
deleted false = raise (profile agent_not_found)

unfoldable pub delete : String → Op (Unit {0})
delete id = do call store; call store; changed ← delete_rows id; deleted changed
