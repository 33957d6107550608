-- ===== src/Store/Grants.antt =====
-- store/directory_grants.rs: reading, patching, deleting and authorising directory grants. The
-- proofs are below.
pub mod Effects
pub mod Valid
pub mod Creating
use opendaemon.Prelude.{
  String, Bool, true, false, not, ◌&&◌, List, Option, none, some, any, select, find, update_where,
  str_eq, unwrap_or, is_none, if◌then◌else◌, Result, ok, err,
}
use opendaemon.Security
use opendaemon.Security.{
  DirectoryCapability, WorkspaceMode, DirectoryLockPolicy, DirectoryGrant, DirectoryGrantPolicy,
  DirectoryAuthorizationRequest, DirectorySecurityError, authorization_failed, policy, new_policy,
}
use opendaemon.Security.PathGuard.{PathGuardError}
use opendaemon.Store.World.{World, Db}
use opendaemon.Store.Exec.{
  Exec, pure, raise, ◌>>=◌, ◌>>◌, call, query, statement, now_rfc3339, transaction, required, lift,
  map_err,
}

pub record PatchDirectoryGrant : Type 0 where
  pub capabilities : Option (List DirectoryCapability)
  pub workspace_modes : Option (List WorkspaceMode)
  pub default_workspace_mode : Option WorkspaceMode
  pub lock_policy : Option DirectoryLockPolicy
  pub direct_mode_requires_explicit_task_opt_in : Option Bool
  pub allow_remote_execution : Option Bool

pub data DirectoryStoreError : Type 0 where
  not_found store : DirectoryStoreError
  path : PathGuardError → DirectoryStoreError
  security : DirectorySecurityError → DirectoryStoreError

abbrev pub Op : Type 0 → Type 0
Op = Exec DirectoryStoreError

abbrev pub has_id : String → DirectoryGrant → Bool
has_id id g = str_eq g.id id

abbrev pub grant_by_id : String → Db → Option DirectoryGrant
grant_by_id id db = find (has_id id) db.directory_grants

unfoldable pub get : String → Op DirectoryGrant
get id = do call store; row ← query store (grant_by_id id); required not_found row

-- the test at the top of `patch`
abbrev pub sets_nothing : PatchDirectoryGrant → Bool
sets_nothing p =
    is_none p.capabilities
    && is_none p.workspace_modes
    && is_none p.default_workspace_mode
    && is_none p.lock_policy
    && is_none p.direct_mode_requires_explicit_task_opt_in
    && is_none p.allow_remote_execution

-- the policy that a patch asks for
abbrev pub patched_policy :
    PatchDirectoryGrant → DirectoryGrant → Result DirectoryGrantPolicy DirectorySecurityError
patched_policy p g =
    new_policy (unwrap_or g.capabilities p.capabilities)
      (unwrap_or g.workspace_modes p.workspace_modes)
      (unwrap_or g.default_workspace_mode p.default_workspace_mode)
      (unwrap_or g.lock_policy p.lock_policy)
      (unwrap_or g.direct_mode_requires_explicit_task_opt_in
        p.direct_mode_requires_explicit_task_opt_in)
      (unwrap_or g.allow_remote_execution p.allow_remote_execution)

abbrev pub set_policy : DirectoryGrantPolicy → String → DirectoryGrant → DirectoryGrant
set_policy p now g = record g {
  capabilities = p.capabilities;
  workspace_modes = p.workspace_modes;
  default_workspace_mode = p.default_workspace_mode;
  lock_policy = p.lock_policy;
  direct_mode_requires_explicit_task_opt_in = p.direct_mode_requires_explicit_task_opt_in;
  allow_remote_execution = p.allow_remote_execution;
  updated_at = now;
}

unfoldable pub update_policy : String → DirectoryGrantPolicy → String → Db → Db
update_policy id p now db = record db {
  directory_grants = update_where (has_id id) (set_policy p now) db.directory_grants;
}

-- the transaction of `patch`
unfoldable pub write_policy : String → DirectoryGrantPolicy → String → Op (Unit {0})
unfolding transaction statement ◌>>=◌ call
write_policy id p now = transaction (do statement store (update_policy id p now); call store)

unfoldable pub patch_current : String → PatchDirectoryGrant → Op DirectoryGrant
patch_current id p = do
  current ← get id
  policy ← map_err security (lift (patched_policy p current))
  now ← now_rfc3339 store
  call store
  call store
  write_policy id policy now
  get id

unfoldable pub patch : String → PatchDirectoryGrant → Op DirectoryGrant
patch id p = if sets_nothing p then raise (security authorization_failed) else patch_current id p

abbrev pub delete_grant : String → Db → Db
delete_grant id db = record db {
  directory_grants = select (λ g. not (has_id id g)) db.directory_grants;
}

-- the transaction of `delete`, which returns whether a row was there
unfoldable pub delete_rows : String → Op Bool
unfolding transaction query statement ◌>>=◌ call pure
delete_rows id = transaction (do
  changed ← (λ w. (ok (any (has_id id) w.db.directory_grants), w))
  statement store (delete_grant id)
  call store
  pure changed)

abbrev pub deleted : Bool → Op (Unit {0})
deleted true = pure tt
deleted false = raise not_found

unfoldable pub delete : String → Op (Unit {0})
delete id = do call store; call store; changed ← delete_rows id; deleted changed

unfoldable pub authorize : DirectoryAuthorizationRequest → Op DirectoryGrant
authorize request = do
  grant ← get request.directory_id
  map_err security (lift (Security.authorize grant request))
  pure grant
