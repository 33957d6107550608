-- ===== src/Store/Grants/Creating/Effects.antt =====
-- What creating a grant stores, and which requests make it panic.
use opendaemon.Prelude.{
  ℕ, String, Bool, true, false, not, ◌&&◌, ◌≡◌, ◌≢◌, refl, sym, subst, ◌↔◌, ◌⊎◌, inl, inr, List, [],
  ◌∷◌, ◌++◌, Option, none, some, any, any-append, unwrap_or, if◌then◌else◌, ap, update_last-append,
  All-append, Result, ok, err, and_then, and_then-eq-ok, arith,
}
use opendaemon.Security.{
  DirectoryGrant, DirectoryGrantPolicy, WorkspaceMode, DirectorySecurityError, worktree,
  invalid_workspace_mode, new_policy, policy, validate,
}
use opendaemon.Security.Policy.{new_policy-IsAccepted}
use opendaemon.Security.PathGuard.{FileSystem, PathGuardError, canonicalize_grant_path}
use opendaemon.Store.World.{World, Db}
use opendaemon.Store.Logic.{
  Ensures, Reads-call, Reads-now_rfc3339, Reads-lift, Reads-map_err, Ensures-read, Ensures-then,
  Ensures-write, Ensures-weaken,
}
use opendaemon.Store.Logic.Writes.{Ensures-of_cases}
use opendaemon.Store.Grants.{store, security, has_id, grant_by_id, get}
use opendaemon.Store.Grants.Effects.{Reads-get, AllValid}
use opendaemon.Store.Grants.Creating.{
  CreateDirectoryGrant, CreateError, failed, panic, modes_of, default_of, lock_of, wrapped,
  policy_from_create, grant_of, insert_grant, set_last_id, grant_id_of, rejected_path, write_grant,
  create, is_only_worktree,
}

-- accepting or refusing the policy is not a panic
wrapped_lem :
    (r : Result DirectoryGrantPolicy DirectorySecurityError) (b : Bool) (e : DirectorySecurityError)
    → (if b then err (failed (security e)) else wrapped r) ≢ err panic
wrapped_lem r true e h = absurd (cc)
wrapped_lem (ok p) false e h = absurd (cc)
wrapped_lem (err x) false e h = absurd (cc)

default_of_lem :
    (o : Option WorkspaceMode) (modes : List WorkspaceMode)
    → (default_of o modes ≡ err panic) ↔ ((modes ≡ []) × (o ≡ none))
default_of_lem (some m) modes = (λ h. absurd (cc), λ h. absurd (let (a, b) = h in cc))
default_of_lem none [] = (λ h. (refl, refl), λ h. refl)
default_of_lem none (m ∷ ms) = (λ h. absurd (ground (arith, h)), λ h. absurd (let (a, b) = h in cc))

-- the rest of `policy_from_create` once the modes are chosen
with_modes :
    (input : CreateDirectoryGrant) (is_git : Bool) (modes : List WorkspaceMode)
    (d : Result WorkspaceMode CreateError)
    → (and_then d λ m.
        if is_only_worktree modes && not is_git
        then err (failed (security invalid_workspace_mode))
        else wrapped (
            new_policy input.capabilities modes m
              (lock_of input.lock_policy input.capabilities)
              (unwrap_or true input.direct_mode_requires_explicit_task_opt_in)
              (unwrap_or false input.allow_remote_execution)))
      ≡ err panic
    → d ≡ err panic
with_modes input is_git modes (ok m) h =
    absurd (wrapped_lem (new_policy _ _ _ _ _ _) (is_only_worktree modes && not is_git) _ h)
with_modes input is_git modes (err e) h = cc

-- the policy of a request: `workspace_modes[0]` panics just for an empty list of modes and no default
-- mode
pub policy_from_create-panics_iff :
    (input : CreateDirectoryGrant) (is_git : Bool)
    → (policy_from_create input is_git ≡ err panic)
      ↔ ((input.workspace_modes ≡ some []) × (input.default_workspace_mode ≡ none))
unfolding policy_from_create
policy_from_create-panics_iff input is_git =
    (panics input.workspace_modes is_git, λ h. rw (h.0, h.1) refl)
  where
    panics :
        (o : Option (List WorkspaceMode)) (g : Bool)
        → and_then (modes_of o g) (λ modes.
          and_then (default_of input.default_workspace_mode modes) λ m.
            if is_only_worktree modes && not g
            then err (failed (security invalid_workspace_mode))
            else wrapped (
                new_policy input.capabilities modes m
                  (lock_of input.lock_policy input.capabilities)
                  (unwrap_or true input.direct_mode_requires_explicit_task_opt_in)
                  (unwrap_or false input.allow_remote_execution)))
          ≡ err panic
        → (o ≡ some []) × (input.default_workspace_mode ≡ none)
    panics (some modes) g h =
        let (a, b) =
          (default_of_lem input.default_workspace_mode modes).0
            (with_modes input g modes (default_of input.default_workspace_mode modes) h) in
        (ap some a, b)
    panics none true h =
        let (a, b) = (default_of_lem input.default_workspace_mode (worktree ∷ [])).0 (
          with_modes input true (worktree ∷ [])
            (default_of input.default_workspace_mode (worktree ∷ [])) h) in
        absurd (cc)
    panics none false h = absurd (cc)

-- the two statements of the transaction
abbrev and_set : Option Db → (Db → Option Db) → Option Db
and_set none f = none
and_set (some d) f = f d

abbrev added : DirectoryGrant → String → Db → Option Db
added g id d = and_set (insert_grant g d) (set_last_id id)

-- the grant was added at the end, under an id that no grant had
abbrev pub Inserted : DirectoryGrant → String → Db → Db → Type 0
Inserted g id d d' =
    (any (has_id id) d.directory_grants ≡ false)
    × (d' ≡ record d { directory_grants = d.directory_grants ++ record g { id = id } ∷ [] })

added_lem :
    (g : DirectoryGrant) (id : String) (d d' : Db) → added g id d ≡ some d' → Inserted g id d d'
added_lem g id d d' h = ground (
  arith,
  h,
  update_last-append (λ (x : DirectoryGrant). record x { id = id }) d.directory_grants g,
  any-append (has_id id) d.directory_grants (g ∷ []),
)

module _ (fs : FileSystem) (new_row_id : Db → ℕ) (g : DirectoryGrant) where
  write_grant_cases :
      (w : World)
      → ((e : CreateError) × ((write_grant fs new_row_id g w).0 ≡ err e)
          × ((write_grant fs new_row_id g w).1.db ≡ w.db))
        ⊎ (((write_grant fs new_row_id g w).0 ≡ ok (grant_id_of (new_row_id w.db)))
            × (added g (grant_id_of (new_row_id w.db)) w.db
                ≡ some (write_grant fs new_row_id g w).1.db))
  unfolding write_grant
  write_grant_cases w = ground arith

  Ensures-write_grant :
      Ensures
        (λ _. Unit)
        (λ d id d'. (id ≡ grant_id_of (new_row_id d)) × Inserted g id d d')
        (λ _ _. ⊥)
        (write_grant fs new_row_id g)
  Ensures-write_grant = Ensures-of_cases (write_grant fs new_row_id g) λ w.
      elim (write_grant_cases w) [
        | inl failure ↦ inl failure
        | inr (e, rows) ↦ inr (grant_id_of (new_row_id w.db), e, (refl, added_lem g _ w.db _ rows))
      ]

wrapped-eq-ok :
    (r : Result DirectoryGrantPolicy DirectorySecurityError) (b : Bool) (e : DirectorySecurityError)
    (p : DirectoryGrantPolicy)
    → (if b then err (failed (security e)) else wrapped r) ≡ ok p
    → r ≡ ok p
wrapped-eq-ok r true e p h = absurd (cc)
wrapped-eq-ok (ok q) false e p h = cc
wrapped-eq-ok (err x) false e p h = absurd (cc)

-- a policy that is made for a new grant is valid
policy_from_create-valid :
    (input : CreateDirectoryGrant) (is_git : Bool) (p : DirectoryGrantPolicy)
    → policy_from_create input is_git ≡ ok p
    → validate p ≡ ok tt
unfolding policy_from_create
policy_from_create-valid input is_git p h =
    let (modes, _, h1) = and_then-eq-ok (modes_of input.workspace_modes is_git) _ h in
    let (mode, _, h2) = and_then-eq-ok (default_of input.default_workspace_mode modes) _ h1 in
    (new_policy-IsAccepted input.capabilities modes mode
      (lock_of input.lock_policy input.capabilities)
      (unwrap_or true input.direct_mode_requires_explicit_task_opt_in)
      (unwrap_or false input.allow_remote_execution) p
      (wrapped-eq-ok _ (is_only_worktree modes && not is_git) invalid_workspace_mode p
        h2)).validated

module _ (fs : FileSystem) (new_row_id : Db → ℕ) (input : CreateDirectoryGrant) where
  -- the grant of the request, on the canonical path, with the policy that was made for it
  abbrev pub Granted : Db → Db → Type 0
  Granted d d' =
      (path : String) × (p : DirectoryGrantPolicy) × (now : String) × (canonicalize_grant_path fs
          input.path
        ≡ ok path)
      × (policy_from_create input (fs.exists (fs.join path ".git")) ≡ ok p)
      × (validate p ≡ ok tt)
      × Inserted (grant_of input path p now "") (grant_id_of (new_row_id d)) d d'

  unpath :
      (r : Result String PathGuardError) (path : String) → rejected_path r ≡ ok path → r ≡ ok path
  unpath (ok q) path h = cc
  unpath (err e) path h = absurd (cc)

  -- `create` adds one grant, under an id that no grant has: on the canonical path of the request, with
  -- the policy made of the request, which `validate` accepts; it returns the row of the new id. Where
  -- it fails, or panics, nothing changed, or (the failure being in reading the row back) that grant
  -- was added.
  pub create_grant_effect :
      Ensures
        (λ _. Unit)
        (λ d g d'. Granted d d' × (grant_by_id (grant_id_of (new_row_id d)) d' ≡ some g))
        Granted
        (create fs new_row_id input)
  unfolding create
  create_grant_effect =
      Ensures-read {Pre = λ _. Unit} _ _
        (Reads-lift (rejected_path (canonicalize_grant_path fs input.path)))
        λ path.
          Ensures-read _ _ (Reads-lift (policy_from_create input (fs.exists (fs.join path ".git"))))
            λ p. Ensures-read _ _ (Reads-now_rfc3339 (failed store)) λ now.
              Ensures-then _ _ (Reads-call (failed store)) (
                Ensures-then _ _ (Reads-call (failed store)) (
                  Ensures-weaken _ (λ d q. tt)
                    (λ d g d' q h.
                      let (id, s, found) = h in
                      (
                        (
                          path,
                          p,
                          now,
                          unpath _ path q.0.0.1,
                          q.0.1,
                          policy_from_create-valid input _ p q.0.1,
                          subst (λ i. Inserted (grant_of input path p now "") i d d') s.0 s.1,
                        ),
                        subst (λ i. grant_by_id i d' ≡ some g) s.0 found,
                      ))
                    (λ d d' q h.
                      let (id, s) = h in
                      (
                        path,
                        p,
                        now,
                        unpath _ path q.0.0.1,
                        q.0.1,
                        policy_from_create-valid input _ p q.0.1,
                        subst (λ i. Inserted (grant_of input path p now "") i d d') s.0 s.1,
                      ))
                    (Ensures-write _ _
                      (Ensures-write_grant fs new_row_id (grant_of input path p now ""))
                      λ id. Reads-map_err failed (get id) (Reads-get id))))

  -- what creating a grant does keeps every stored policy valid
  pub Granted-AllValid : (d d' : Db) → AllValid d → Granted d d' → AllValid d'
  Granted-AllValid d d' h (path, p, now, _, _, valid, (_, e)) = subst AllValid (sym e) (
      All-append (λ g. validate (policy g) ≡ ok tt) d.directory_grants
        (grant_of input path p now (grant_id_of (new_row_id d)) ∷ []) h (valid, tt))
