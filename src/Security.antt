-- ===== src/Security.antt =====
-- security/directory.rs: what a directory grant allows a task to do. The proofs are below.
pub mod Policy
pub mod Authorize
pub mod PathGuard
use opendaemon.Prelude.{
  btree_set, ℕ, String, ◌==◌, ltb, Bool, true, false, not, ◌&&◌, ◌||◌, List, [], ◌∷◌, any, str_eq,
  if◌then◌else◌, Result, ok, err, and_then,
}

pub data DirectoryCapability : Type 0 where
  read write shell git : DirectoryCapability

pub data WorkspaceMode : Type 0 where
  worktree direct : WorkspaceMode

pub data DirectoryLockPolicy : Type 0 where
  exclusive shared none : DirectoryLockPolicy

-- the declaration order, by which the derived `Ord` compares
abbrev pub capability_rank : DirectoryCapability → ℕ
capability_rank read = 0
capability_rank write = 1
capability_rank shell = 2
capability_rank git = 3

abbrev pub mode_rank : WorkspaceMode → ℕ
mode_rank worktree = 0
mode_rank direct = 1

abbrev pub capability_eq : DirectoryCapability → DirectoryCapability → Bool
capability_eq a b = capability_rank a == capability_rank b

abbrev pub mode_eq : WorkspaceMode → WorkspaceMode → Bool
mode_eq a b = mode_rank a == mode_rank b

abbrev pub is_direct : WorkspaceMode → Bool
is_direct direct = true
is_direct worktree = false

abbrev pub is_no_lock : DirectoryLockPolicy → Bool
is_no_lock none = true
is_no_lock _ = false

-- `capabilities.contains(…)`, `workspace_modes.contains(…)`
abbrev pub has_capability : List DirectoryCapability → DirectoryCapability → Bool
has_capability cs c = any (capability_eq c) cs

abbrev pub has_mode : List WorkspaceMode → WorkspaceMode → Bool
has_mode ms m = any (mode_eq m) ms

pub record DirectoryGrant : Type 0 where
  pub id : String
  pub product_id : String
  pub agent_id : String
  pub path : String
  pub capabilities : List DirectoryCapability
  pub workspace_modes : List WorkspaceMode
  pub default_workspace_mode : WorkspaceMode
  pub lock_policy : DirectoryLockPolicy
  pub direct_mode_requires_explicit_task_opt_in : Bool
  pub allow_remote_execution : Bool
  pub created_at : String
  pub updated_at : String

pub record DirectoryGrantPolicy : Type 0 where
  pub capabilities : List DirectoryCapability
  pub workspace_modes : List WorkspaceMode
  pub default_workspace_mode : WorkspaceMode
  pub lock_policy : DirectoryLockPolicy
  pub direct_mode_requires_explicit_task_opt_in : Bool
  pub allow_remote_execution : Bool

pub record DirectoryAuthorizationRequest : Type 0 where
  pub product_id : String
  pub agent_id : String
  pub directory_id : String
  pub required_capabilities : List DirectoryCapability
  pub requested_workspace_mode : WorkspaceMode
  pub direct_mode_task_opt_in : Bool
  pub remote_execution : Bool

pub data DirectorySecurityError : Type 0 where
  invalid_capability invalid_workspace_mode invalid_lock_policy : DirectorySecurityError
  direct_mode_not_allowed authorization_failed : DirectorySecurityError

abbrev is_empty : {A : Type 0} → List A → Bool
is_empty [] = true
is_empty (_ ∷ _) = false

unfoldable pub normalize_capabilities :
    List DirectoryCapability → Result (List DirectoryCapability) DirectorySecurityError
normalize_capabilities capabilities =
    let normalized = btree_set capability_rank capabilities in
    if is_empty normalized then err invalid_capability else ok normalized

unfoldable pub normalize_workspace_modes :
    List WorkspaceMode → Result (List WorkspaceMode) DirectorySecurityError
normalize_workspace_modes workspace_modes =
    let normalized = btree_set mode_rank workspace_modes in
    if is_empty normalized then err invalid_workspace_mode else ok normalized

-- `DirectoryGrantPolicy::validate`
unfoldable pub validate : DirectoryGrantPolicy → Result (Unit {0}) DirectorySecurityError
validate p =
    if is_empty p.capabilities
    then err invalid_capability
    else if is_empty p.workspace_modes || not (has_mode p.workspace_modes p.default_workspace_mode)
    then err invalid_workspace_mode
    else if has_capability p.capabilities write && is_no_lock p.lock_policy
    then err invalid_lock_policy
    else ok tt

-- `DirectoryGrantPolicy::new`
unfoldable pub new_policy :
    List DirectoryCapability
    → List WorkspaceMode
    → WorkspaceMode
    → DirectoryLockPolicy
    → Bool
    → Bool
    → Result DirectoryGrantPolicy DirectorySecurityError
unfolding normalize_capabilities normalize_workspace_modes validate
new_policy capabilities workspace_modes default_mode lock_policy opt_in allow_remote =
    and_then (normalize_capabilities capabilities) λ capabilities'.
      and_then (normalize_workspace_modes workspace_modes) λ workspace_modes'.
        let policy : DirectoryGrantPolicy = record {
          capabilities = capabilities';
          workspace_modes = workspace_modes';
          default_workspace_mode = default_mode;
          lock_policy = lock_policy;
          direct_mode_requires_explicit_task_opt_in = opt_in;
          allow_remote_execution = allow_remote;
        } in
        and_then (validate policy) λ _. ok policy

-- `DirectoryGrant::policy`
abbrev pub policy : DirectoryGrant → DirectoryGrantPolicy
policy g = record {
  capabilities = g.capabilities;
  workspace_modes = g.workspace_modes;
  default_workspace_mode = g.default_workspace_mode;
  lock_policy = g.lock_policy;
  direct_mode_requires_explicit_task_opt_in = g.direct_mode_requires_explicit_task_opt_in;
  allow_remote_execution = g.allow_remote_execution;
}

-- `capabilities.iter().any(|capability| !grant.capabilities.contains(capability))`
abbrev pub lacks_one : DirectoryGrant → List DirectoryCapability → Bool
lacks_one g required = any (λ c. not (has_capability g.capabilities c)) required

abbrev mode_error : WorkspaceMode → DirectorySecurityError
mode_error direct = direct_mode_not_allowed
mode_error worktree = authorization_failed

-- `DirectoryGrant::authorize`
unfoldable pub authorize :
    DirectoryGrant → DirectoryAuthorizationRequest → Result (Unit {0}) DirectorySecurityError
authorize g request =
    if not (str_eq g.product_id request.product_id)
      || not (str_eq g.agent_id request.agent_id)
      || not (str_eq g.id request.directory_id)
    then err authorization_failed
    else if lacks_one g request.required_capabilities
    then err authorization_failed
    else if not (has_mode g.workspace_modes request.requested_workspace_mode)
    then err (mode_error request.requested_workspace_mode)
    else if is_direct request.requested_workspace_mode
        && g.direct_mode_requires_explicit_task_opt_in
        && not request.direct_mode_task_opt_in
    then err direct_mode_not_allowed
    else if request.remote_execution && not g.allow_remote_execution
    then err authorization_failed
    else ok tt
