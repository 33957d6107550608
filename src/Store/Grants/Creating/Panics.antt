-- ===== src/Store/Grants/Creating/Panics.antt =====
-- Which requests make `create` of store/directory_grants.rs panic.
use opendaemon.Prelude.{
  ℕ, String, ◌≡◌, ◌≢◌, refl, ap, ◌∙◌, ◌↔◌, [], none, some, Result, ok, err, arith,
}
use opendaemon.Security.{DirectoryGrant, DirectoryGrantPolicy}
use opendaemon.Security.PathGuard.{FileSystem, PathGuardError, canonicalize_grant_path}
use opendaemon.Store.World.{World, Db}
use opendaemon.Store.Exec.{Exec, continue, ◌>>=◌, ◌>>◌, lift, call, now_rfc3339, map_err, mapped}
use opendaemon.Store.Grants.{DirectoryStoreError, store, get}
use opendaemon.Store.Grants.Creating.{
  CreateDirectoryGrant, CreateError, failed, panic, policy_from_create, grant_of, rejected_path,
  write_grant, create,
}
use opendaemon.Store.Grants.Creating.Effects.{policy_from_create-panics_iff}

-- an operation that never panics
record Calm {A : Type 0} (m : Exec CreateError A) : Type 0 where
  calm : (w : World) → (m w).0 ≢ err panic

Calm-bind :
    {A B : Type 0} (m : Exec CreateError A) (f : A → Exec CreateError B)
    → Calm m
    → ((a : A) → Calm (f a))
    → Calm (m >>= f)
unfolding ◌>>=◌
Calm-bind {A} m f hm hf = record { calm = λ w. go (m w).0 (m w).1 (hm.calm w) }
  where
    go : (r : Result A CreateError) (w : World) → r ≢ err panic → (continue r f w).0 ≢ err panic
    go (ok a) w h = (hf a).calm w
    go (err e) w h = λ q. h (let same : e ≡ panic = cc in ap err same)

Calm-call : Calm (call (failed store))
unfolding call
Calm-call = record { calm = λ w h. ground (arith, h) }

Calm-now_rfc3339 : Calm (now_rfc3339 (failed store))
unfolding now_rfc3339
Calm-now_rfc3339 = record { calm = λ w h. ground (arith, h) }

Calm-map_err : {A : Type 0} (m : Exec DirectoryStoreError A) → Calm (map_err failed m)
unfolding map_err
Calm-map_err {A} m = record { calm = λ w. go (m w).0 }
  where
    go : (r : Result A DirectoryStoreError) → mapped failed r ≢ err panic
    go (ok a) h = absurd (cc)
    go (err e) h = absurd (cc)

module _ (fs : FileSystem) (new_row_id : Db → ℕ) where
  Calm-write_grant : (g : DirectoryGrant) → Calm (write_grant fs new_row_id g)
  unfolding write_grant
  Calm-write_grant g = record { calm = λ w h. ground (arith, h) }

  -- `create` behind the two steps that can refuse the request
  abbrev stored :
      CreateDirectoryGrant → String → DirectoryGrantPolicy → Exec CreateError DirectoryGrant
  stored input path policy = do
    now ← now_rfc3339 (failed store)
    call (failed store)
    call (failed store)
    id ← write_grant fs new_row_id (grant_of input path policy now "")
    map_err failed (get id)

  Calm-stored :
      (input : CreateDirectoryGrant) (path : String) (policy : DirectoryGrantPolicy)
      → Calm (stored input path policy)
  Calm-stored input path policy = Calm-bind _ _ Calm-now_rfc3339 λ now. Calm-bind _ _ Calm-call λ u.
      Calm-bind _ _ Calm-call λ v.
        Calm-bind _ _ (Calm-write_grant (grant_of input path policy now ""))
          λ id. Calm-map_err (get id)

  -- `create` panics just when `canonicalize_grant_path` accepts the path of the request, and the request
  -- asks for an empty list of modes and for no default mode.
  pub create-panics_iff :
      (input : CreateDirectoryGrant) (w : World)
      → ((create fs new_row_id input w).0 ≡ err panic) ↔ (
          ((path : String) × (canonicalize_grant_path fs input.path ≡ ok path))
          × (input.workspace_modes ≡ some [])
          × (input.default_workspace_mode ≡ none))
  unfolding create ◌>>=◌ lift
  create-panics_iff input w = (
    at_path (canonicalize_grant_path fs input.path) refl,
    λ h.
        let (path, found) = h.0 in
        rw
          (
            found,
            (policy_from_create-panics_iff input (fs.exists (fs.join path ".git"))).1 (h.1, h.2),
          )
          refl,
  )
    where
      at_policy :
          (path : String) (r : Result DirectoryGrantPolicy CreateError)
          → policy_from_create input (fs.exists (fs.join path ".git")) ≡ r
          → (continue r (stored input path) w).0 ≡ err panic
          → (input.workspace_modes ≡ some []) × (input.default_workspace_mode ≡ none)
      at_policy path (ok p) e h = absurd ((Calm-stored input path p).calm w h)
      at_policy path (err x) e h =
          (policy_from_create-panics_iff input (fs.exists (fs.join path ".git"))).0
            (let same : x ≡ panic = cc in e ∙ ap err same)

      at_path :
          (r : Result String PathGuardError)
          → canonicalize_grant_path fs input.path ≡ r
          → (continue
              (rejected_path r)
              (λ path.
                lift (policy_from_create input (fs.exists (fs.join path ".git")))
                >>= stored input path)
              w).0
            ≡ err panic
          → ((path : String) × (canonicalize_grant_path fs input.path ≡ ok path))
            × (input.workspace_modes ≡ some [])
            × (input.default_workspace_mode ≡ none)
      at_path (err x) e h = absurd (cc)
      at_path (ok path) e h =
          let (modes, mode) =
            at_policy path (policy_from_create input (fs.exists (fs.join path ".git"))) refl h in
          ((path, e), modes, mode)
