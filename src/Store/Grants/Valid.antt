-- ===== src/Store/Grants/Valid.antt =====
-- The stored grants under any sequence of calls that write them.
use opendaemon.Prelude.{
  ℕ, String, List, [], ◌∷◌, ◌≡◌, ◌≢◌, refl, sym, ap, ◌∙◌, none, some, ◌⊎◌, inl, inr, Option-cases,
  find-update_where_other, find-append_of_some, find-select_other,
}
use opendaemon.Text.{String-cases, str_eq_other}
use opendaemon.Security.{DirectoryGrant}
use opendaemon.Security.PathGuard.{FileSystem}
use opendaemon.Store.World.{World, Db}
use opendaemon.Store.Logic.{Ensures-keeps}
use opendaemon.Store.Grants
use opendaemon.Store.Grants.{PatchDirectoryGrant, grant_by_id, has_id, set_policy, update_policy}
use opendaemon.Store.Grants.Effects.{
  Patched, Deleted, AllValid, Patched-AllValid, Deleted-AllValid, patch_effect, delete_effect,
}
use opendaemon.Store.Grants.Creating
use opendaemon.Store.Grants.Creating.{CreateDirectoryGrant}
use opendaemon.Store.Grants.Creating.Effects.{Granted, Granted-AllValid, create_grant_effect}

pub data Call : Type 0 where
  create : CreateDirectoryGrant → Call
  patch : String → PatchDirectoryGrant → Call
  delete : String → Call

-- a call that changes the grant of that id, if there is one
abbrev pub Names : String → Call → Type 0
Names id (Call.create input) = ⊥
Names id (Call.patch other p) = (other ≡ id)
Names id (Call.delete other) = (other ≡ id)

abbrev pub SomeNames : String → List Call → Type 0
SomeNames id [] = ⊥
SomeNames id (c ∷ cs) = Names id c ⊎ SomeNames id cs

-- the id is that of one of the grants
abbrev Found : String → DirectoryGrant → Db → Type 0
Found id g d = (grant_by_id id d ≡ some g)

Patched-Found :
    (id other : String) (g : DirectoryGrant) (p : PatchDirectoryGrant) (d d' : Db)
    → other ≢ id
    → Found id g d
    → Patched other p d d'
    → Found id g d'
unfolding update_policy
Patched-Found id other g p d d' differs found (current, q, now, _, _, e) =
    ap (grant_by_id id) e
    ∙ find-update_where_other (has_id id) (has_id other) (set_policy q now) d.directory_grants
        (λ x. refl) (λ x h. str_eq_other x.id other id differs h)
    ∙ found

Deleted-Found :
    (id other : String) (g : DirectoryGrant) (d d' : Db)
    → other ≢ id
    → Found id g d
    → Deleted other d d'
    → Found id g d'
Deleted-Found id other g d d' differs found (_, e) =
    ap (grant_by_id id) e
    ∙ find-select_other (has_id id) (has_id other) d.directory_grants
        (λ x h. str_eq_other x.id other id differs h)
    ∙ found

module _ (fs : FileSystem) (new_row_id : Db → ℕ) where
  -- the world after a call, whether it returned or failed
  unfoldable pub serve : Call → World → World
  serve (Call.create input) w = (Creating.create fs new_row_id input w).1
  serve (Call.patch id p) w = (Grants.patch id p w).1
  serve (Call.delete id) w = (Grants.delete id w).1

  unfoldable pub serve_all : List Call → World → World
  serve_all [] w = w
  serve_all (c ∷ cs) w = serve_all cs (serve c w)

  serve-AllValid : (c : Call) (w : World) → AllValid w.db → AllValid (serve c w).db
  unfolding serve
  serve-AllValid (Call.create input) w h =
      Ensures-keeps AllValid _ (create_grant_effect fs new_row_id input)
        (λ d g d' i s. Granted-AllValid fs new_row_id input d d' i s.0)
        (Granted-AllValid fs new_row_id input) w tt h
  serve-AllValid (Call.patch id p) w h =
      Ensures-keeps AllValid _ (patch_effect id p) (λ d g d' i s. Patched-AllValid id p d d' i s.0)
        (Patched-AllValid id p) w tt h
  serve-AllValid (Call.delete id) w h =
      Ensures-keeps AllValid _ (delete_effect id) (λ d u d' i s. Deleted-AllValid id d d' i s)
        (λ d d' i n. absurd n) w tt h

  Granted-Found :
      (id : String) (g : DirectoryGrant) (input : CreateDirectoryGrant) (d d' : Db)
      → Found id g d
      → Granted fs new_row_id input d d'
      → Found id g d'
  Granted-Found id g input d d' found (path, p, now, _, _, _, (_, e)) =
      ap (grant_by_id id) e ∙ find-append_of_some (has_id id) d.directory_grants _ g found

  serve-Found :
      (id : String) (g : DirectoryGrant) (c : Call) (w : World)
      → Found id g w.db
      → Names id c ⊎ Found id g (serve c w).db
  unfolding serve
  serve-Found id g (Call.create input) w found = inr (
      Ensures-keeps (Found id g) _ (create_grant_effect fs new_row_id input)
        (λ d h d' i s. Granted-Found id g input d d' i s.0) (Granted-Found id g input) w tt found)
  serve-Found id g (Call.patch other p) w found = elim (String-cases other id) [
    | inl e ↦ inl e
    | inr differs ↦ inr (
        Ensures-keeps (Found id g) _ (patch_effect other p)
          (λ d h d' i s. Patched-Found id other g p d d' differs i s.0)
          (λ d d' i s. Patched-Found id other g p d d' differs i s) w tt found)
  ]
  serve-Found id g (Call.delete other) w found = elim (String-cases other id) [
    | inl e ↦ inl e
    | inr differs ↦ inr (
        Ensures-keeps (Found id g) _ (delete_effect other)
          (λ d u d' i s. Deleted-Found id other g d d' differs i s) (λ d d' i n. absurd n) w tt
          found)
  ]

  serve_all-Found :
      (id : String) (g : DirectoryGrant) (cs : List Call) (w : World)
      → Found id g w.db
      → SomeNames id cs ⊎ Found id g (serve_all cs w).db
  unfolding serve_all
  serve_all-Found id g [] w found = inr found
  serve_all-Found id g (c ∷ cs) w found = elim (serve-Found id g c w found) [
    | inl named ↦ inl (inl named)
    | inr kept ↦ elim (serve_all-Found id g cs (serve c w) kept) [
      | inl named ↦ inl (inr named)
      | inr kept' ↦ inr kept'
    ]
  ]

  valid_after : (cs : List Call) (w : World) → AllValid w.db → AllValid (serve_all cs w).db
  unfolding serve_all
  valid_after [] w h = h
  valid_after (c ∷ cs) w h = valid_after cs (serve c w) (serve-AllValid c w h)

  -- Whatever calls of `create`, `patch` and `delete` are made, in any order, and whether they return or
  -- fail: if every stored policy passes `validate` before, every stored policy does after them; and a
  -- grant that is stored before, and that no patch and no deletion among the calls names, is found under
  -- its id unchanged.
  pub serve_all-AllValid :
      (cs : List Call) (w : World) (id : String)
      → AllValid w.db
      → AllValid (serve_all cs w).db
        × ((grant_by_id id w.db ≡ none)
            ⊎ SomeNames id cs
            ⊎ (grant_by_id id (serve_all cs w).db ≡ grant_by_id id w.db))
  serve_all-AllValid cs w id h = (
    valid_after cs w h,
    elim (Option-cases (grant_by_id id w.db)) [
      | inl missing ↦ inl missing
      | inr (g, found) ↦ elim (serve_all-Found id g cs w found) [
        | inl named ↦ inr (inl named)
        | inr kept ↦ inr (inr (kept ∙ sym found))
      ]
    ],
  )
