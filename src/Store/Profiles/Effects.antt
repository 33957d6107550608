-- ===== src/Store/Profiles/Effects.antt =====
-- What the operations of store/agent_profiles.rs change, and that stored profiles stay valid.
use opendaemon.Prelude.{
  String, true, false, ◌≡◌, refl, ◌⊎◌, inl, inr, some, [], ◌∷◌, ◌++◌, any, select-not_of_none,
  arith, ok, err, Bool-cases,
}
use opendaemon.Agent.{AgentProfile, CreateAgentProfile, into_profile, invalid_agent_profile}
use opendaemon.Agent.Validate.{validate}
use opendaemon.Store.World.{World, Db}
use opendaemon.Store.Exec.{raise, ◌>>=◌, call}
use opendaemon.Store.Logic.{
  Reads, Ensures, Anything, Reads-call, Reads-now_rfc3339, Reads-lift, Reads-map_err, Ensures-read,
  Ensures-then, Ensures-write, Ensures-weaken,
}
use opendaemon.Store.Logic.Writes.{Ensures-of_cases}
use opendaemon.Store.Profiles.{
  AgentStoreError, profile, store, has_id, profile_by_id, get, Reads-get,
}
use opendaemon.Store.Profiles.Writing.{
  PatchAgentProfile, profile_now, write_profile, create, sets_nothing, patched, update_profile,
  write_update, patch_current, patch, delete_profile, delete_rows, delete,
}

Reads-profile_now : Reads Anything profile_now
Reads-profile_now = Reads-now_rfc3339 (profile invalid_agent_profile)

abbrev pub Inserted : AgentProfile → Db → Db → Type 0
Inserted p d d' =
    (any (has_id p.id) d.agent_profiles ≡ false)
    × (d' ≡ record d { agent_profiles = d.agent_profiles ++ p ∷ [] })

module _ (p : AgentProfile) where
  write_profile_cases :
      (w : World)
      → ((e : AgentStoreError) × ((write_profile p w).0 ≡ err e)
          × ((write_profile p w).1.db ≡ w.db))
        ⊎ (((write_profile p w).0 ≡ ok tt) × Inserted p w.db (write_profile p w).1.db)
  unfolding write_profile
  write_profile_cases w = ground arith

  Ensures-write_profile :
      Ensures (λ _. Unit) (λ d _ d'. Inserted p d d') (λ _ _. ⊥) (write_profile p)
  Ensures-write_profile = Ensures-of_cases (write_profile p) λ w. elim (write_profile_cases w) [
    | inl failed ↦ inl failed
    | inr (e, rows) ↦ inr (tt, e, rows)
  ]

abbrev pub Created : CreateAgentProfile → Db → Db → Type 0
Created input d d' =
    (now : String) × (validate input ≡ ok tt) × Inserted (into_profile input now now) d d'

-- `create` adds the profile under an id that no profile had, and only one that `validate` accepts;
-- what it returns is the row of that id. Where it fails, nothing changed, or (the failure being in
-- reading the row back) that profile was added.
pub create_profile_effect :
    (input : CreateAgentProfile)
    → Ensures
        (λ _. Unit)
        (λ d p d'. Created input d d' × (profile_by_id input.id d' ≡ some p))
        (Created input)
        (create input)
unfolding create
create_profile_effect input =
    Ensures-read {Pre = λ _. Unit} _ _ (Reads-map_err profile _ (Reads-lift (validate input))) λ u.
      Ensures-read profile_now _ Reads-profile_now λ now.
        Ensures-then (call store) _ (Reads-call store) (
          Ensures-then (call store) _ (Reads-call store) (
            Ensures-weaken _ (λ d q. tt) (λ d p d' q h. ((now, q.0.1, h.1), h.2))
              (λ d d' q h. (now, q.0.1, h.1))
              (Ensures-write (write_profile (into_profile input now now)) _
                (Ensures-write_profile (into_profile input now now)) λ _. Reads-get input.id)))

-- the profile got what the patch asks for, which `validate` accepts
abbrev pub Patched : String → PatchAgentProfile → Db → Db → Type 0
Patched id p d d' =
    (current : AgentProfile) × (now : String) × (profile_by_id id d ≡ some current)
    × (validate (patched p current) ≡ ok tt)
    × (d' ≡ update_profile id (patched p current) now d)

module _ (id : String) (next : CreateAgentProfile) (now : String) where
  write_update_cases :
      (w : World)
      → ((e : AgentStoreError) × ((write_update id next now w).0 ≡ err e)
          × ((write_update id next now w).1.db ≡ w.db))
        ⊎ (((write_update id next now w).0 ≡ ok tt)
            × ((write_update id next now w).1.db ≡ update_profile id next now w.db))
  unfolding write_update
  write_update_cases w = ground arith

  Ensures-write_update :
      Ensures
        (λ _. Unit)
        (λ d _ d'. d' ≡ update_profile id next now d)
        (λ _ _. ⊥)
        (write_update id next now)
  Ensures-write_update = Ensures-of_cases (write_update id next now) λ w.
      elim (write_update_cases w) [ inl failed ↦ inl failed | inr (e, rows) ↦ inr (tt, e, rows) ]

Ensures-patch_current :
    (id : String) (p : PatchAgentProfile)
    → Ensures
        (λ _. Unit)
        (λ d a d'. Patched id p d d' × (profile_by_id id d' ≡ some a))
        (Patched id p)
        (patch_current id p)
unfolding patch_current
Ensures-patch_current id p = Ensures-read {Pre = λ _. Unit} (get id) _ (Reads-get id) λ current.
    Ensures-read _ _ (Reads-map_err profile _ (Reads-lift (validate (patched p current)))) λ u.
      Ensures-read profile_now _ Reads-profile_now λ now.
        Ensures-then (call store) _ (Reads-call store) (
          Ensures-then (call store) _ (Reads-call store) (
            Ensures-weaken _ (λ d q. tt) (λ d a d' q h. ((current, now, q.0.0.1, q.0.1, h.1), h.2))
              (λ d d' q h. (current, now, q.0.0.1, q.0.1, h.1))
              (Ensures-write (write_update id (patched p current) now) _
                (Ensures-write_update id (patched p current) now) λ _. Reads-get id)))

-- `patch` gives the profile of that id what is asked for, if `validate` accepts the result, and
-- returns the row of that id; where it fails, nothing changed, or (the failure being in reading the
-- row back) the profile got it.
pub patch_profile_effect :
    (id : String) (p : PatchAgentProfile)
    → Ensures
        (λ _. Unit)
        (λ d a d'. Patched id p d d' × (profile_by_id id d' ≡ some a))
        (Patched id p)
        (patch id p)
unfolding patch raise
patch_profile_effect id p = elim (Bool-cases (sets_nothing p)) [
  | inl e ↦ rw e (record { at = λ w q. inl refl })
  | inr e ↦ rw e (Ensures-patch_current id p)
]

abbrev pub Deleted : String → Db → Db → Type 0
Deleted id d d' = (any (has_id id) d.agent_profiles ≡ true) × (d' ≡ delete_profile id d)

delete_cases :
    (id : String) (w : World)
    → ((e : AgentStoreError) × ((delete id w).0 ≡ err e) × ((delete id w).1.db ≡ w.db))
      ⊎ (((delete id w).0 ≡ ok tt) × Deleted id w.db (delete id w).1.db)
unfolding delete delete_rows ◌>>=◌ call
delete_cases id w = elim (Bool-cases (any (has_id id) w.db.agent_profiles)) [
  | inl e ↦ ground (arith, e)
  | inr e ↦ ground (arith, e, select-not_of_none (has_id id) w.db.agent_profiles)
]

pub delete_profile_effect :
    (id : String) → Ensures (λ _. Unit) (λ d _ d'. Deleted id d d') (λ _ _. ⊥) (delete id)
delete_profile_effect id =
    Ensures-of_cases (delete id)
      λ w. elim (delete_cases id w) [ inl failed ↦ inl failed | inr (e, rows) ↦ inr (tt, e, rows) ]
