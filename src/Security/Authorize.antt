-- ===== src/Security/Authorize.antt =====
-- `DirectoryGrant::authorize` of security/directory.rs, against a list of what it has to check.
use opendaemon.Prelude.{◌≡◌, refl, true, false, List, [], ◌∷◌, All, arith, ok, ◌⊎◌, ◌↔◌, eq_iff}
use opendaemon.Security.{
  DirectoryCapability, worktree, DirectoryGrant, DirectoryAuthorizationRequest, has_capability,
  has_mode, lacks_one, authorize,
}

-- the request names this grant, asks for nothing that the grant does not list, and enters the
-- directory itself or runs remotely only where the grant lets it
pub record Permits (g : DirectoryGrant) (r : DirectoryAuthorizationRequest) : Type 0 where
  pub product : g.product_id ≡ r.product_id
  pub agent : g.agent_id ≡ r.agent_id
  pub directory : g.id ≡ r.directory_id
  pub capabilities : All (λ c. has_capability g.capabilities c ≡ true) r.required_capabilities
  pub mode : has_mode g.workspace_modes r.requested_workspace_mode ≡ true
  pub opted_in :
      (r.requested_workspace_mode ≡ worktree)
      ⊎ (g.direct_mode_requires_explicit_task_opt_in ≡ false)
      ⊎ (r.direct_mode_task_opt_in ≡ true)
  pub remote : (r.remote_execution ≡ false) ⊎ (g.allow_remote_execution ≡ true)

lacks_one_iff :
    (g : DirectoryGrant) (cs : List DirectoryCapability)
    → (lacks_one g cs ≡ false) ↔ All (λ c. has_capability g.capabilities c ≡ true) cs
lacks_one_iff g [] = (λ _. tt, λ _. refl)
lacks_one_iff g (c ∷ cs) =
    let ih = lacks_one_iff g cs in
    (λ h. (ground arith, ih.0 (ground arith)), λ h. ground (arith, ih.1 h.1))

-- `authorize` accepts a request exactly when the grant permits it.
pub authorize_iff :
    (g : DirectoryGrant) (r : DirectoryAuthorizationRequest) → (authorize g r ≡ ok tt) ↔ Permits g r
unfolding authorize
authorize_iff g r =
    let lacks = lacks_one_iff g r.required_capabilities in
    let product = eq_iff g.product_id r.product_id in
    let agent = eq_iff g.agent_id r.agent_id in
    let directory = eq_iff g.id r.directory_id in
    (
      λ h. record {
        product = ground (arith, product);
        agent = ground (arith, agent);
        directory = ground (arith, directory);
        capabilities = lacks.0 (ground arith);
        mode = ground arith;
        opted_in = ground arith;
        remote = ground arith;
      },
      λ p. ground (arith, product, agent, directory, lacks.1 p.capabilities, p.opted_in, p.remote),
    )
