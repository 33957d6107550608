-- ===== src/Examples/Security.antt =====
-- Grants, profiles and policies of the small daemon.
use opendaemon.Prelude.{◌≡◌, refl, ◌↔◌, [], ◌∷◌, true, false, some, none, ok}
use opendaemon.Security.{
  DirectoryGrantPolicy, DirectoryAuthorizationRequest, DirectoryLockPolicy, read, write, worktree,
  new_policy, authorize,
}
use opendaemon.Security.Policy.{IsAccepted, new_policy-IsAccepted}
use opendaemon.Security.Authorize.{Permits, authorize_iff}
use opendaemon.Agent
use opendaemon.Store.Logic.{Reads}
use opendaemon.Store.Grants
use opendaemon.Store.Grants.{PatchDirectoryGrant, grant_by_id}
use opendaemon.Store.Grants.Effects.{Reads-authorize}
use opendaemon.Store.Profiles
use opendaemon.Store.Profiles.{
  AgentAuthorizationRequest, profile_by_id, Allows, Reads-authorize_profile,
}
use opendaemon.Examples.{a_grant}

abbrev a_question : DirectoryAuthorizationRequest
a_question = record {
  product_id = "product";
  agent_id = "agent";
  directory_id = "dir_1";
  required_capabilities = read ∷ [];
  requested_workspace_mode = worktree;
  direct_mode_task_opt_in = false;
  remote_execution = false;
}

abbrev a_policy : DirectoryGrantPolicy
a_policy = record {
  capabilities = read ∷ write ∷ [];
  workspace_modes = worktree ∷ [];
  default_workspace_mode = worktree;
  lock_policy = DirectoryLockPolicy.shared;
  direct_mode_requires_explicit_task_opt_in = true;
  allow_remote_execution = false;
}

accepted :
    new_policy
      (write ∷ read ∷ write ∷ [])
      (worktree ∷ [])
      worktree
      DirectoryLockPolicy.shared
      true
      false
    ≡ ok a_policy
unfolding new_policy
accepted = refl

abbrev pub a_patch : PatchDirectoryGrant
a_patch = record {
  capabilities = none;
  workspace_modes = none;
  default_workspace_mode = none;
  lock_policy = some DirectoryLockPolicy.shared;
  direct_mode_requires_explicit_task_opt_in = none;
  allow_remote_execution = none;
}

authorize_iff_example : (authorize a_grant a_question ≡ ok tt) ↔ Permits a_grant a_question
authorize_iff_example = authorize_iff a_grant a_question

new_policy-IsAccepted_example : IsAccepted (write ∷ read ∷ write ∷ []) (worktree ∷ []) a_policy
new_policy-IsAccepted_example =
    new_policy-IsAccepted (write ∷ read ∷ write ∷ []) (worktree ∷ []) worktree
      DirectoryLockPolicy.shared true false a_policy accepted

Reads-authorize_example :
    Reads
      (λ d g. (grant_by_id "dir_1" d ≡ some g) × Permits g a_question)
      (Grants.authorize a_question)
Reads-authorize_example = Reads-authorize a_question

abbrev a_profile_question : AgentAuthorizationRequest
a_profile_question = record {
  agent_id = "agent";
  owner_product_id = "product";
  provider_id_override = some "codex";
  model_override = none;
  permission_mode_override = none;
  requested_workspace_mode = Agent.WorkspaceMode.worktree;
}

Reads-authorize_profile_example :
    Reads
      (λ d p. (profile_by_id "agent" d ≡ some p) × Allows p a_profile_question)
      (Profiles.authorize a_profile_question)
Reads-authorize_profile_example = Reads-authorize_profile a_profile_question
