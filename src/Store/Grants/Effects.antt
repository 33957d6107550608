-- ===== src/Store/Grants/Effects.antt =====
-- What the operations of store/directory_grants.rs find and change.
use opendaemon.Prelude.{
  String, Bool, true, ◌≡◌, refl, sym, subst, ◌∙◌, ◌⊎◌, inl, inr, some, All, All-update_where, any,
  select-not_of_none, All-select, not, arith, ok, err, Bool-cases,
}
use opendaemon.Security
use opendaemon.Security.{
  DirectoryGrant, DirectoryGrantPolicy, DirectoryAuthorizationRequest, policy, validate,
}
use opendaemon.Security.Authorize.{Permits, authorize_iff}
use opendaemon.Security.Policy.{new_policy-IsAccepted}
use opendaemon.Store.World.{World, Db}
use opendaemon.Store.Exec.{raise, ◌>>=◌, call, query, now_rfc3339, lift, map_err}
use opendaemon.Store.Logic.{
  Reads, Ensures, Reads-bind, Reads-then, Reads-call, Reads-query, Reads-required, Reads-pure,
  Reads-weaken, Reads-now_rfc3339, Reads-lift, Reads-map_err, Ensures-read, Ensures-then,
  Ensures-write, Ensures-weaken,
}
use opendaemon.Store.Logic.Writes.{Ensures-of_cases}
use opendaemon.Store.Grants.{
  PatchDirectoryGrant, DirectoryStoreError, store, not_found, security, has_id, grant_by_id, get,
  sets_nothing, patched_policy, set_policy, update_policy, write_policy, patch_current, patch,
  delete_grant, delete_rows, delete, authorize,
}

pub Reads-get : (id : String) → Reads (λ d g. grant_by_id id d ≡ some g) (get id)
unfolding get
Reads-get id =
    Reads-weaken _ (λ d g h. sym h.1 ∙ h.2)
      (Reads-then (call store) _ (Reads-call store) (
        Reads-bind (query store (grant_by_id id)) _ (Reads-query store (grant_by_id id))
          λ row. Reads-required not_found row))

-- `authorize` changes nothing, and returns the grant of that id only if it permits the request.
pub Reads-authorize :
    (r : DirectoryAuthorizationRequest)
    → Reads (λ d g. (grant_by_id r.directory_id d ≡ some g) × Permits g r) (authorize r)
unfolding authorize
Reads-authorize r = Reads-weaken _ found (
    Reads-bind (get r.directory_id) _ (Reads-get r.directory_id) λ g.
      Reads-bind (map_err security (lift (Security.authorize g r))) _
        (Reads-map_err security _ (Reads-lift (Security.authorize g r))) λ _. Reads-pure g)
  where
    found :
        (d : Db) (g : DirectoryGrant)
        → (g' : DirectoryGrant) × (grant_by_id r.directory_id d ≡ some g')
          × ((u : Unit {0}) × (Security.authorize g' r ≡ ok u) × (g ≡ g'))
        → (grant_by_id r.directory_id d ≡ some g) × Permits g r
    found d g (g', q, (tt, allowed, e)) =
        subst (λ x. (grant_by_id r.directory_id d ≡ some x) × Permits x r) (sym e)
          (q, (authorize_iff g' r).0 allowed)

-- the grant got the policy that the patch asks for, as `DirectoryGrantPolicy::new` accepts it
abbrev pub Patched : String → PatchDirectoryGrant → Db → Db → Type 0
Patched id p d d' =
    (current : DirectoryGrant) × (policy : DirectoryGrantPolicy) × (now : String) × (grant_by_id id
        d
      ≡ some current)
    × (patched_policy p current ≡ ok policy)
    × (d' ≡ update_policy id policy now d)

module _ (id : String) (policy : DirectoryGrantPolicy) (now : String) where
  write_policy_cases :
      (w : World)
      → ((write_policy id policy now w).0 ≡ err store)
          × ((write_policy id policy now w).1.db ≡ w.db)
        ⊎ (((write_policy id policy now w).0 ≡ ok tt)
            × ((write_policy id policy now w).1.db ≡ update_policy id policy now w.db))
  unfolding write_policy
  write_policy_cases w = ground arith

  Ensures-write_policy :
      Ensures
        (λ _. Unit)
        (λ d _ d'. d' ≡ update_policy id policy now d)
        (λ _ _. ⊥)
        (write_policy id policy now)
  Ensures-write_policy = Ensures-of_cases (write_policy id policy now) λ w.
      elim (write_policy_cases w) [
        | inl (e, same) ↦ inl (store, e, same)
        | inr (e, rows) ↦ inr (tt, e, rows)
      ]

Ensures-patch_current :
    (id : String) (p : PatchDirectoryGrant)
    → Ensures
        (λ _. Unit)
        (λ d g d'. Patched id p d d' × (grant_by_id id d' ≡ some g))
        (Patched id p)
        (patch_current id p)
unfolding patch_current
Ensures-patch_current id p = Ensures-read {Pre = λ _. Unit} (get id) _ (Reads-get id) λ current.
    Ensures-read _ _ (Reads-map_err security _ (Reads-lift (patched_policy p current))) λ policy.
      Ensures-read (now_rfc3339 store) _ (Reads-now_rfc3339 store) λ now.
        Ensures-then (call store) _ (Reads-call store)
          (Ensures-then (call store) _ (Reads-call store) (finish current policy now))
  where
    finish :
        (current : DirectoryGrant) (policy : DirectoryGrantPolicy) (now : String)
        → Ensures
            (λ d.
              ((Unit {0} × (grant_by_id id d ≡ some current))
                × (patched_policy p current ≡ ok policy))
              × Unit {0})
            (λ d g d'. Patched id p d d' × (grant_by_id id d' ≡ some g))
            (Patched id p)
            (write_policy id policy now >>= λ _. get id)
    finish current policy now =
        Ensures-weaken _ (λ d q. tt)
          (λ d g d' q h. ((current, policy, now, q.0.0.1, q.0.1, h.1), h.2))
          (λ d d' q h. (current, policy, now, q.0.0.1, q.0.1, h.1))
          (Ensures-write (write_policy id policy now) _ (Ensures-write_policy id policy now)
            λ _. Reads-get id)

pub patch_effect :
    (id : String) (p : PatchDirectoryGrant)
    → Ensures
        (λ _. Unit)
        (λ d g d'. Patched id p d d' × (grant_by_id id d' ≡ some g))
        (Patched id p)
        (patch id p)
unfolding patch raise
patch_effect id p = elim (Bool-cases (sets_nothing p)) [
  | inl e ↦ rw e (record { at = λ w q. inl refl })
  | inr e ↦ rw e (Ensures-patch_current id p)
]

-- the rows after `delete`, where there was one of that id
abbrev pub Deleted : String → Db → Db → Type 0
Deleted id d d' = (any (has_id id) d.directory_grants ≡ true) × (d' ≡ delete_grant id d)

abbrev WasDeleted : String → Db → Bool → Db → Type 0
WasDeleted id d b d' = (b ≡ any (has_id id) d.directory_grants) × (d' ≡ delete_grant id d)

-- every stored grant has a policy that `validate` accepts
abbrev pub AllValid : Db → Type 0
AllValid d = All (λ g. validate (policy g) ≡ ok tt) d.directory_grants

-- what a patch does keeps every stored policy valid
pub Patched-AllValid :
    (id : String) (p : PatchDirectoryGrant) (d d' : Db)
    → AllValid d
    → Patched id p d d'
    → AllValid d'
unfolding update_policy
Patched-AllValid id p d d' h (current, q, now, found, accepted, e) = subst AllValid (sym e) (
    All-update_where (λ g. validate (policy g) ≡ ok tt) (has_id id) (set_policy q now)
      d.directory_grants (λ g own old. valid) h)
  where
    valid : validate q ≡ ok tt
    valid = (new_policy-IsAccepted _ _ _ _ _ _ q accepted).validated

delete_cases :
    (id : String) (w : World)
    → ((e : DirectoryStoreError) × ((delete id w).0 ≡ err e) × ((delete id w).1.db ≡ w.db))
      ⊎ (((delete id w).0 ≡ ok tt) × Deleted id w.db (delete id w).1.db)
unfolding delete delete_rows ◌>>=◌ call
delete_cases id w = elim (Bool-cases (any (has_id id) w.db.directory_grants)) [
  | inl e ↦ ground (arith, e)
  | inr e ↦ ground (arith, e, select-not_of_none (has_id id) w.db.directory_grants)
]

-- `delete` removes the grants of that id, or fails and changes nothing.
pub delete_effect :
    (id : String) → Ensures (λ _. Unit) (λ d _ d'. Deleted id d d') (λ _ _. ⊥) (delete id)
delete_effect id =
    Ensures-of_cases (delete id)
      λ w. elim (delete_cases id w) [ inl failed ↦ inl failed | inr (e, rows) ↦ inr (tt, e, rows) ]

-- what a deletion does keeps every stored policy valid
pub Deleted-AllValid : (id : String) (d d' : Db) → AllValid d → Deleted id d d' → AllValid d'
Deleted-AllValid id d d' h (_, e) =
    subst AllValid (sym e)
      (All-select (λ g. validate (policy g) ≡ ok tt) (λ g. not (has_id id g)) d.directory_grants h)
