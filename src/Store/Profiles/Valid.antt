-- ===== src/Store/Profiles/Valid.antt =====
-- The stored profiles under any sequence of calls that write them.
use opendaemon.Prelude.{
  ◌≡◌, ◌≢◌, refl, ap, ◌∙◌, none, some, ◌⊎◌, inl, inr, Option-cases, find-update_where_other,
  find-append_of_some, find-select_other, String, List, sym, subst, ◌∷◌, [], All, All-append,
  All-select, All-update_where, not,
}
use opendaemon.Text.{String-cases, str_eq_other}
use opendaemon.Agent.{AgentProfile, CreateAgentProfile, into_profile}
use opendaemon.Agent.Checks.{IsProfile, validate_iff}
use opendaemon.Store.World.{World, Db}
use opendaemon.Store.Logic.{Ensures-keeps}
use opendaemon.Store.Profiles.{has_id, profile_by_id}
use opendaemon.Store.Profiles.Writing
use opendaemon.Store.Profiles.Writing.{PatchAgentProfile, patched, set_columns, update_profile}
use opendaemon.Store.Profiles.Effects.{
  Created, Patched, Deleted, create_profile_effect, patch_profile_effect, delete_profile_effect,
}

-- the request that a profile would be made of
abbrev pub as_input : AgentProfile → CreateAgentProfile
as_input p = record {
  id = p.id;
  name = p.name;
  owner_product_id = p.owner_product_id;
  provider_id = p.provider_id;
  model = p.model;
  instructions = p.instructions;
  execution_policy = p.execution_policy;
  provider_config = p.provider_config;
}

abbrev pub AllProfiles : Db → Type 0
AllProfiles d = All (λ p. IsProfile (as_input p)) d.agent_profiles

Created-AllProfiles :
    (input : CreateAgentProfile) (d d' : Db) → AllProfiles d → Created input d d' → AllProfiles d'
Created-AllProfiles input d d' h (now, valid, (_, e)) = subst AllProfiles (sym e) (
    All-append (λ p. IsProfile (as_input p)) d.agent_profiles (into_profile input now now ∷ []) h
      ((validate_iff input).0 valid, tt))

Patched-AllProfiles :
    (id : String) (p : PatchAgentProfile) (d d' : Db)
    → AllProfiles d
    → Patched id p d d'
    → AllProfiles d'
unfolding update_profile
Patched-AllProfiles id p d d' h (current, now, _, valid, e) = subst AllProfiles (sym e) (
    All-update_where (λ q. IsProfile (as_input q)) (has_id id) (set_columns (patched p current) now)
      d.agent_profiles
      (λ row own old.
        let next = (validate_iff (patched p current)).0 valid in
        record {
          id = old.id;
          name = next.name;
          owner = old.owner;
          provider = next.provider;
          model = next.model;
          instructions = next.instructions;
          policy = next.policy;
          config = next.config;
        })
      h)

Deleted-AllProfiles : (id : String) (d d' : Db) → AllProfiles d → Deleted id d d' → AllProfiles d'
Deleted-AllProfiles id d d' h (_, e) =
    subst AllProfiles (sym e)
      (All-select (λ p. IsProfile (as_input p)) (λ p. not (has_id id p)) d.agent_profiles h)

pub data Call : Type 0 where
  create : CreateAgentProfile → Call
  patch : String → PatchAgentProfile → Call
  delete : String → Call

-- a call that changes the profile of that id, if there is one
abbrev pub Names : String → Call → Type 0
Names id (Call.create input) = ⊥
Names id (Call.patch other p) = (other ≡ id)
Names id (Call.delete other) = (other ≡ id)

abbrev pub SomeNames : String → List Call → Type 0
SomeNames id [] = ⊥
SomeNames id (c ∷ cs) = Names id c ⊎ SomeNames id cs

-- the profile is the one of the id
abbrev Found : String → AgentProfile → Db → Type 0
Found id r d = (profile_by_id id d ≡ some r)

Created-Found :
    (id : String) (r : AgentProfile) (input : CreateAgentProfile) (d d' : Db)
    → Found id r d
    → Created input d d'
    → Found id r d'
Created-Found id r input d d' found (now, _, (_, e)) =
    ap (profile_by_id id) e ∙ find-append_of_some (has_id id) d.agent_profiles _ r found

Patched-Found :
    (id other : String) (r : AgentProfile) (p : PatchAgentProfile) (d d' : Db)
    → other ≢ id
    → Found id r d
    → Patched other p d d'
    → Found id r d'
unfolding update_profile
Patched-Found id other r p d d' differs found (current, now, _, _, e) =
    ap (profile_by_id id) e
    ∙ find-update_where_other (has_id id) (has_id other) (set_columns (patched p current) now)
        d.agent_profiles (λ x. refl) (λ x h. str_eq_other x.id other id differs h)
    ∙ found

Deleted-Found :
    (id other : String) (r : AgentProfile) (d d' : Db)
    → other ≢ id
    → Found id r d
    → Deleted other d d'
    → Found id r d'
Deleted-Found id other r d d' differs found (_, e) =
    ap (profile_by_id id) e
    ∙ find-select_other (has_id id) (has_id other) d.agent_profiles
        (λ x h. str_eq_other x.id other id differs h)
    ∙ found

-- the world after a call, whether it returned or failed
unfoldable pub serve : Call → World → World
serve (Call.create input) w = (Writing.create input w).1
serve (Call.patch id p) w = (Writing.patch id p w).1
serve (Call.delete id) w = (Writing.delete id w).1

unfoldable pub serve_all : List Call → World → World
serve_all [] w = w
serve_all (c ∷ cs) w = serve_all cs (serve c w)

serve-AllProfiles : (c : Call) (w : World) → AllProfiles w.db → AllProfiles (serve c w).db
unfolding serve
serve-AllProfiles (Call.create input) w h =
    Ensures-keeps AllProfiles _ (create_profile_effect input)
      (λ d p d' i s. Created-AllProfiles input d d' i s.0) (Created-AllProfiles input) w tt h
serve-AllProfiles (Call.patch id p) w h =
    Ensures-keeps AllProfiles _ (patch_profile_effect id p)
      (λ d q d' i s. Patched-AllProfiles id p d d' i s.0) (Patched-AllProfiles id p) w tt h
serve-AllProfiles (Call.delete id) w h =
    Ensures-keeps AllProfiles _ (delete_profile_effect id)
      (λ d u d' i s. Deleted-AllProfiles id d d' i s) (λ d d' i n. absurd n) w tt h

serve-Found :
    (id : String) (r : AgentProfile) (c : Call) (w : World)
    → Found id r w.db
    → Names id c ⊎ Found id r (serve c w).db
unfolding serve
serve-Found id r (Call.create input) w found = inr (
    Ensures-keeps (Found id r) _ (create_profile_effect input)
      (λ d q d' i s. Created-Found id r input d d' i s.0) (Created-Found id r input) w tt found)
serve-Found id r (Call.patch other p) w found = elim (String-cases other id) [
  | inl e ↦ inl e
  | inr differs ↦ inr (
      Ensures-keeps (Found id r) _ (patch_profile_effect other p)
        (λ d q d' i s. Patched-Found id other r p d d' differs i s.0)
        (λ d d' i s. Patched-Found id other r p d d' differs i s) w tt found)
]
serve-Found id r (Call.delete other) w found = elim (String-cases other id) [
  | inl e ↦ inl e
  | inr differs ↦ inr (
      Ensures-keeps (Found id r) _ (delete_profile_effect other)
        (λ d u d' i s. Deleted-Found id other r d d' differs i s) (λ d d' i n. absurd n) w tt found)
]

serve_all-Found :
    (id : String) (r : AgentProfile) (cs : List Call) (w : World)
    → Found id r w.db
    → SomeNames id cs ⊎ Found id r (serve_all cs w).db
unfolding serve_all
serve_all-Found id r [] w found = inr found
serve_all-Found id r (c ∷ cs) w found = elim (serve-Found id r c w found) [
  | inl named ↦ inl (inl named)
  | inr kept ↦ elim (serve_all-Found id r cs (serve c w) kept) [
    | inl named ↦ inl (inr named)
    | inr kept' ↦ inr kept'
  ]
]

valid_after : (cs : List Call) (w : World) → AllProfiles w.db → AllProfiles (serve_all cs w).db
unfolding serve_all
valid_after [] w h = h
valid_after (c ∷ cs) w h = valid_after cs (serve c w) (serve-AllProfiles c w h)

-- Whatever calls of `create`, `patch` and `delete` are made, in any order, and whether they return or
-- fail: if the checks accept every stored profile before, they accept every stored profile after them;
-- and a profile that is stored before, and that no patch and no deletion among the calls names, is found
-- under its id unchanged.
pub serve_all-AllProfiles :
    (cs : List Call) (w : World) (id : String)
    → AllProfiles w.db
    → AllProfiles (serve_all cs w).db
      × ((profile_by_id id w.db ≡ none)
          ⊎ SomeNames id cs
          ⊎ (profile_by_id id (serve_all cs w).db ≡ profile_by_id id w.db))
serve_all-AllProfiles cs w id h = (
  valid_after cs w h,
  elim (Option-cases (profile_by_id id w.db)) [
    | inl missing ↦ inl missing
    | inr (r, found) ↦ elim (serve_all-Found id r cs w found) [
      | inl named ↦ inr (inl named)
      | inr kept ↦ inr (inr (kept ∙ sym found))
    ]
  ],
)
