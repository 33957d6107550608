-- ===== src/Security/Policy.antt =====
-- `DirectoryGrantPolicy::new` and `validate` of security/directory.rs: what an accepted policy is.
use opendaemon.Prelude.{
  ◌≡◌, sym, subst, Bool, List, arith, ok, IsAscending, btree_set, btree_set-IsAscending,
  btree_set_of_IsAscending, any-btree_set,
}
use opendaemon.Security.{
  DirectoryCapability, WorkspaceMode, DirectoryLockPolicy, DirectoryGrantPolicy, capability_rank,
  mode_rank, has_capability, has_mode, normalize_capabilities, normalize_workspace_modes, validate,
  new_policy,
}

-- what the rest of the daemon relies on in an accepted policy
pub record IsAccepted (capabilities : List DirectoryCapability) (modes : List WorkspaceMode)
    (p : DirectoryGrantPolicy) : Type 0 where
  pub validated : validate p ≡ ok tt
  pub capabilities_ascend : IsAscending capability_rank p.capabilities
  pub modes_ascend : IsAscending mode_rank p.workspace_modes
  pub same_capabilities :
      (c : DirectoryCapability) → has_capability p.capabilities c ≡ has_capability capabilities c
  pub same_modes : (m : WorkspaceMode) → has_mode p.workspace_modes m ≡ has_mode modes m

normalize_capabilities-eq-ok :
    (cs : List DirectoryCapability) (cs' : List DirectoryCapability)
    → normalize_capabilities cs ≡ ok cs'
    → cs' ≡ btree_set capability_rank cs
unfolding normalize_capabilities
normalize_capabilities-eq-ok cs cs' h = ground arith

normalize_workspace_modes-eq-ok :
    (ms : List WorkspaceMode) (ms' : List WorkspaceMode)
    → normalize_workspace_modes ms ≡ ok ms'
    → ms' ≡ btree_set mode_rank ms
unfolding normalize_workspace_modes
normalize_workspace_modes-eq-ok ms ms' h = ground arith

module _ (cs : List DirectoryCapability) (ms : List WorkspaceMode) (m : WorkspaceMode)
    (l : DirectoryLockPolicy) (opt_in remote : Bool) (p : DirectoryGrantPolicy)
    (accepted : new_policy cs ms m l opt_in remote ≡ ok p) where
  new_policy_fields :
      (p.capabilities ≡ btree_set capability_rank cs)
      × (p.workspace_modes ≡ btree_set mode_rank ms)
      × (validate p ≡ ok tt)
      × (p.default_workspace_mode ≡ m)
      × (p.lock_policy ≡ l)
      × (p.direct_mode_requires_explicit_task_opt_in ≡ opt_in)
      × (p.allow_remote_execution ≡ remote)
  unfolding new_policy
  new_policy_fields = ground arith

  -- A policy that `DirectoryGrantPolicy::new` accepts passes `validate`, has exactly the
  -- capabilities and modes that were asked for, and lists each of them once, in ascending order.
  pub new_policy-IsAccepted : IsAccepted cs ms p
  new_policy-IsAccepted =
      let (capabilities, modes, valid, _, _, _, _) = new_policy_fields in
      record {
        validated = valid;
        capabilities_ascend =
            subst (IsAscending capability_rank) (sym capabilities)
              (btree_set-IsAscending capability_rank cs);
        modes_ascend =
            subst (IsAscending mode_rank) (sym modes) (btree_set-IsAscending mode_rank ms);
        same_capabilities =
            λ c. rw capabilities (any-btree_set capability_rank (capability_rank c) cs);
        same_modes = λ m'. rw modes (any-btree_set mode_rank (mode_rank m') ms);
      }

  -- `DirectoryGrantPolicy::new` accepts the fields of an accepted policy, and gives that policy.
  pub new_policy_idem :
      new_policy p.capabilities p.workspace_modes p.default_workspace_mode p.lock_policy
        p.direct_mode_requires_explicit_task_opt_in p.allow_remote_execution
      ≡ ok p
  unfolding new_policy
  new_policy_idem =
      let a = new_policy-IsAccepted in
      ground (
        arith,
        a.validated,
        btree_set_of_IsAscending capability_rank p.capabilities a.capabilities_ascend,
        btree_set_of_IsAscending mode_rank p.workspace_modes a.modes_ascend,
      )
