-- ===== src/Store/Grants/Creating.antt =====
-- store/directory_grants.rs: creating and listing grants. The row id of a new row is SQLite's choice,
-- an argument here: a row id that a deleted last row had is used again.
pub mod Effects
pub mod Panics
use Prim.Native.String.{◌++◌ as concat}
use opendaemon.Prelude.{
  ℕ, String, Bool, true, false, not, ◌&&◌, List, [], ◌∷◌, ◌++◌, Option, none, some, any, select,
  update_last, str_eq, unwrap_or, if◌then◌else◌, Result, ok, err, and_then,
}
use opendaemon.Text.Decimal.{show}
use opendaemon.Security.{
  DirectoryCapability, WorkspaceMode, DirectoryLockPolicy, DirectoryGrant, DirectoryGrantPolicy,
  DirectorySecurityError, worktree, direct, write, invalid_workspace_mode, has_capability, has_mode,
  new_policy,
}
use opendaemon.Security.PathGuard.{FileSystem, PathGuardError, canonicalize_grant_path}
use opendaemon.Store.World.{World, Db}
use opendaemon.Store.Exec.{
  Exec, pure, ◌>>=◌, ◌>>◌, call, query, constrained, now_rfc3339, transaction, lift, map_err,
  mapped,
}
use opendaemon.Store.Grants.{DirectoryStoreError, store, security, has_id, get}

pub record CreateDirectoryGrant : Type 0 where
  pub product_id : String
  pub agent_id : String
  pub path : String
  pub capabilities : List DirectoryCapability
  pub workspace_modes : Option (List WorkspaceMode)
  pub default_workspace_mode : Option WorkspaceMode
  pub lock_policy : Option DirectoryLockPolicy
  pub direct_mode_requires_explicit_task_opt_in : Option Bool
  pub allow_remote_execution : Option Bool

pub record DirectoryGrantFilters : Type 0 where
  pub product_id : Option String
  pub agent_id : Option String

-- `panic` stands for an index out of bounds
pub data CreateError : Type 0 where
  failed : DirectoryStoreError → CreateError
  panic : CreateError

-- `workspace_modes`, the modes that are asked for or the one of a Git repository
abbrev pub modes_of : Option (List WorkspaceMode) → Bool → Result (List WorkspaceMode) CreateError
modes_of (some modes) is_git = ok modes
modes_of none true = ok (worktree ∷ [])
modes_of none false = err (failed (security invalid_workspace_mode))

-- `workspace_modes[0]`
abbrev pub first_mode : List WorkspaceMode → Result WorkspaceMode CreateError
first_mode [] = err panic
first_mode (m ∷ ms) = ok m

abbrev pub default_of : Option WorkspaceMode → List WorkspaceMode → Result WorkspaceMode CreateError
default_of (some m) modes = ok m
default_of none modes =
    let first = first_mode modes in if has_mode modes worktree then ok worktree else first

abbrev pub lock_of : Option DirectoryLockPolicy → List DirectoryCapability → DirectoryLockPolicy
lock_of (some p) capabilities = p
lock_of none capabilities =
    if has_capability capabilities write
    then DirectoryLockPolicy.exclusive
    else DirectoryLockPolicy.shared

-- `workspace_modes == [WorkspaceMode::Worktree]`
abbrev pub is_only_worktree : List WorkspaceMode → Bool
is_only_worktree (worktree ∷ []) = true
is_only_worktree _ = false

abbrev pub wrapped : {A : Type 0} → Result A DirectorySecurityError → Result A CreateError
wrapped (ok a) = ok a
wrapped (err e) = err (failed (security e))

unfoldable pub policy_from_create :
    CreateDirectoryGrant → Bool → Result DirectoryGrantPolicy CreateError
policy_from_create input is_git = and_then (modes_of input.workspace_modes is_git) λ modes.
    and_then (default_of input.default_workspace_mode modes) λ default_mode.
      if is_only_worktree modes && not is_git
      then err (failed (security invalid_workspace_mode))
      else wrapped (
          new_policy input.capabilities modes default_mode
            (lock_of input.lock_policy input.capabilities)
            (unwrap_or true input.direct_mode_requires_explicit_task_opt_in)
            (unwrap_or false input.allow_remote_execution))

-- the row that is inserted, its id still empty, and the `UPDATE` of its id
abbrev pub grant_of :
    CreateDirectoryGrant → String → DirectoryGrantPolicy → String → String → DirectoryGrant
grant_of input path policy now id = record {
  id = id;
  product_id = input.product_id;
  agent_id = input.agent_id;
  path = path;
  capabilities = policy.capabilities;
  workspace_modes = policy.workspace_modes;
  default_workspace_mode = policy.default_workspace_mode;
  lock_policy = policy.lock_policy;
  direct_mode_requires_explicit_task_opt_in = policy.direct_mode_requires_explicit_task_opt_in;
  allow_remote_execution = policy.allow_remote_execution;
  created_at = now;
  updated_at = now;
}

abbrev pub insert_grant : DirectoryGrant → Db → Option Db
insert_grant g db =
    if any (has_id g.id) db.directory_grants
    then none
    else some (record db { directory_grants = db.directory_grants ++ g ∷ [] })

abbrev pub set_last_id : String → Db → Option Db
set_last_id id db =
    if any (has_id id) db.directory_grants
    then none
    else some (record db {
      directory_grants =
          update_last (λ (g : DirectoryGrant). record g { id = id }) db.directory_grants;
    })

-- `format!("dir_{row_id}")`
unfoldable pub grant_id_of : ℕ → String
grant_id_of row_id = concat "dir_" (show row_id)

abbrev pub is_none_or : Option String → String → Bool
is_none_or none actual = true
is_none_or (some wanted) actual = str_eq actual wanted

-- the `WHERE` clause of the four queries of `list`
unfoldable pub matches : DirectoryGrantFilters → DirectoryGrant → Bool
matches f g = is_none_or f.product_id g.product_id && is_none_or f.agent_id g.agent_id

unfoldable pub list : DirectoryGrantFilters → Exec DirectoryStoreError (List DirectoryGrant)
list f = do call store; query store (λ db. select (matches f) db.directory_grants)

abbrev pub rejected_path : {A : Type 0} → Result A PathGuardError → Result A CreateError
rejected_path (ok a) = ok a
rejected_path (err e) = err (failed (DirectoryStoreError.path e))

module _ (fs : FileSystem) (new_row_id : Db → ℕ) where
  -- the transaction of `create`, which returns the new id
  unfoldable pub write_grant : DirectoryGrant → Exec CreateError String
  unfolding transaction constrained ◌>>=◌ call pure
  write_grant g = transaction (do
    row_id ← (λ w. (ok (new_row_id w.db), w))
    constrained (failed store) (insert_grant g)
    constrained (failed store) (set_last_id (grant_id_of row_id))
    call (failed store)
    pure (grant_id_of row_id))

  unfoldable pub create : CreateDirectoryGrant → Exec CreateError DirectoryGrant
  create input = do
    path ← lift (rejected_path (canonicalize_grant_path fs input.path))
    policy ← lift (policy_from_create input (fs.exists (fs.join path ".git")))
    now ← now_rfc3339 (failed store)
    call (failed store)
    call (failed store)
    id ← write_grant (grant_of input path policy now "")
    map_err failed (get id)
