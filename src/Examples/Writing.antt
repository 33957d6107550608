-- ===== src/Examples/Writing.antt =====
-- New grants and profiles.
use opendaemon.Prelude.{
  ◌⊎◌, ◌≡◌, ◌↔◌, refl, true, false, List, [], ◌∷◌, Option, some, none, err, ok, String,
}
use opendaemon.Text.{is_id, is_blank}
use opendaemon.Security.{WorkspaceMode, read, validate}
use opendaemon.Security.PathGuard.{FileSystem, canonicalize_grant_path}
use opendaemon.Store.Logic.{Ensures}
use opendaemon.Store.Grants.{grant_by_id}
use opendaemon.Store.Grants.Creating
use opendaemon.Store.Grants.Creating.{CreateDirectoryGrant, panic, grant_id_of}
use opendaemon.Store.Grants.Creating.Effects.{Granted, create_grant_effect}
use opendaemon.Store.Grants.Creating.Panics.{create-panics_iff}
use opendaemon.Store.Grants.Effects.{AllValid}
use opendaemon.Store.Grants.Valid.{serve_all-AllValid}
use opendaemon.Store.Grants
use opendaemon.Store.Profiles
use opendaemon.Store.Profiles.{profile_by_id}
use opendaemon.Store.Profiles.Writing.{PatchAgentProfile}
use opendaemon.Store.Profiles.Valid.{AllProfiles, serve_all-AllProfiles}
use opendaemon.Examples.{a_db, a_world}
use opendaemon.Examples.Security.{a_patch}
use opendaemon.Examples.Providers.{an_input}

-- every path is canonical, and a directory with a `.git` in it
abbrev a_file_system : FileSystem
a_file_system = record {
  canonicalize = λ p. some p;
  is_dir = λ p. true;
  exists = λ p. true;
  is_absolute = λ p. true;
  join = λ p q. q;
  starts_with = λ p q. true;
  is_symlink = λ p. false;
  prefixes = λ p. [];
}

abbrev no_modes : CreateDirectoryGrant
no_modes = record {
  product_id = "product";
  agent_id = "agent";
  path = "/work";
  capabilities = read ∷ [];
  workspace_modes = some [];
  default_workspace_mode = none;
  lock_policy = none;
  direct_mode_requires_explicit_task_opt_in = none;
  allow_remote_execution = none;
}

create-panics_iff_example :
    ((Creating.create a_file_system (λ d. 2) no_modes a_world).0 ≡ err panic) ↔ (
      ((path : String) × (canonicalize_grant_path a_file_system "/work" ≡ ok path))
      × (◌≡◌ {A = Option (List WorkspaceMode)} (some []) (some []))
      × (◌≡◌ {A = Option WorkspaceMode} none none))
create-panics_iff_example = create-panics_iff a_file_system (λ d. 2) no_modes a_world

abbrev a_new_grant : CreateDirectoryGrant
a_new_grant = record no_modes { workspace_modes = none }

create_grant_effect_example :
    Ensures
      (λ _. Unit)
      (λ d g d'.
        Granted a_file_system (λ d. 2) a_new_grant d d' × (grant_by_id (grant_id_of 2) d' ≡ some g))
      (Granted a_file_system (λ d. 2) a_new_grant)
      (Creating.create a_file_system (λ d. 2) a_new_grant)
create_grant_effect_example = create_grant_effect a_file_system (λ d. 2) a_new_grant

stored_profiles : AllProfiles a_db
unfolding is_id is_blank
stored_profiles = (
  record {
    id = refl;
    name = refl;
    owner = refl;
    provider = refl;
    model = refl;
    instructions = tt;
    policy = refl;
    config = record {
      args = tt;
      args_distinct = tt;
      env_keys = tt;
      env_keys_distinct = tt;
      permission_mode = refl;
    };
  },
  tt,
)

abbrev a_patch_of_profile : PatchAgentProfile
a_patch_of_profile = record {
  name = none;
  provider_id = none;
  model = some "large";
  instructions = none;
  execution_policy = none;
  provider_config = none;
}

-- a profile that is taken, one that is refused for its empty name, a patch and a deletion
abbrev profile_calls : List Profiles.Valid.Call
profile_calls =
    Profiles.Valid.Call.create (record an_input { id = "agent_2" })
    ∷ Profiles.Valid.Call.create (record an_input { id = "agent_3"; name = "" })
    ∷ Profiles.Valid.Call.patch "agent_2" a_patch_of_profile
    ∷ Profiles.Valid.Call.delete "agent_2"
    ∷ []

serve_all-AllProfiles_example :
    AllProfiles (Profiles.Valid.serve_all profile_calls a_world).db
    × ((profile_by_id "agent" a_db ≡ none)
        ⊎ Profiles.Valid.SomeNames "agent" profile_calls
        ⊎ (profile_by_id "agent" (Profiles.Valid.serve_all profile_calls a_world).db
            ≡ profile_by_id "agent" a_db))
serve_all-AllProfiles_example = serve_all-AllProfiles profile_calls a_world "agent" stored_profiles

all_valid : AllValid a_db
unfolding validate
all_valid = (refl, tt)

abbrev grant_calls : List Grants.Valid.Call
grant_calls =
    Grants.Valid.Call.create a_new_grant
    ∷ Grants.Valid.Call.patch "dir_2" a_patch
    ∷ Grants.Valid.Call.create no_modes
    ∷ Grants.Valid.Call.delete "dir_2"
    ∷ []

serve_all-AllValid_example :
    AllValid (Grants.Valid.serve_all a_file_system (λ d. 2) grant_calls a_world).db
    × ((grant_by_id "dir_1" a_db ≡ none)
        ⊎ Grants.Valid.SomeNames "dir_1" grant_calls
        ⊎ (grant_by_id "dir_1"
              (Grants.Valid.serve_all a_file_system (λ d. 2) grant_calls a_world).db
            ≡ grant_by_id "dir_1" a_db))
serve_all-AllValid_example =
    serve_all-AllValid a_file_system (λ d. 2) grant_calls a_world "dir_1" all_valid
