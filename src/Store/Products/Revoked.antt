-- ===== src/Store/Products/Revoked.antt =====
-- A product token stays out of use once it is revoked.
use mathlib.Core.Option.{some-injective}
use opendaemon.Prelude.{
  String, false, ◌&&◌, ◌≡◌, sym, subst, ap, ◌∙◌, List, [], ◌∷◌, Option, some, ok, err, All,
  All-update_where, update_where, is_none, ◌⊎◌, inl, inr, arith, eq_refl,
}
use opendaemon.Product.{ProductTokenRow, CreateProduct, PatchProduct, AuthenticatedProductToken}
use opendaemon.Store.World.{World, Db}
use opendaemon.Store.Exec.{call, statement}
use opendaemon.Store.Logic.{
  Ensures, Ensures-ok, Ensures-keeps, Ensures-read, Ensures-then, Ensures-weaken, Reads-call,
}
use opendaemon.Store.Logic.Writes.{Ensures-of_cases}
use opendaemon.Store.Products
use opendaemon.Store.Products.{ProductStoreError, store, product_now}
use opendaemon.Store.Products.Effects.{
  Reads-get_product, Reads-product_now, create_product_effect, patch_product_effect,
}
use opendaemon.Store.Products.Tokens
use opendaemon.Store.Products.Tokens.{
  Crypto, of_product, has_token_id, coalesce, revoke_row, touch_row, authenticate_product_token,
}
use opendaemon.Store.Products.Sessions.{Row, Answered, authenticate_product_token_effect}

revoke_cases :
    (product_id token_id now : String) (w : World)
    → ((e : ProductStoreError) × ((statement store (revoke_row product_id token_id now) w).0
          ≡ err e)
        × ((statement store (revoke_row product_id token_id now) w).1.db ≡ w.db))
      ⊎ (((statement store (revoke_row product_id token_id now) w).0 ≡ ok tt)
          × ((statement store (revoke_row product_id token_id now) w).1.db
              ≡ revoke_row product_id token_id now w.db))
unfolding statement
revoke_cases product_id token_id now w = ground arith

-- `revoke_token` notes the time on the rows of that product and id, or fails and changes nothing.
pub revoke_token_effect :
    (product_id token_id : String)
    → Ensures
        (λ _. Unit)
        (λ d _ d'. (now : String) × (d' ≡ revoke_row product_id token_id now d))
        (λ _ _. ⊥)
        (Tokens.revoke_token product_id token_id)
unfolding Tokens.revoke_token
revoke_token_effect product_id token_id =
    Ensures-read {Pre = λ _. Unit} _ _ (Reads-get_product product_id) λ p.
      Ensures-read product_now _ Reads-product_now λ now.
        Ensures-then (call store) _ (Reads-call store) (
          Ensures-weaken _ (λ d q. tt) (λ d u d' q h. (now, h)) (λ d d' q n. n)
            (Ensures-of_cases {S = λ d _ d'. d' ≡ revoke_row product_id token_id now d}
              (statement store (revoke_row product_id token_id now))
              λ w. elim (revoke_cases product_id token_id now w) [
                | inl failed ↦ inl failed
                | inr (e, rows) ↦ inr (tt, e, rows)
              ]))

-- a call of the product store; a token may be checked any number of times
pub data Call : Type 0 where
  create_product : CreateProduct → Call
  patch_product : String → PatchProduct → Call
  revoke_token : String → String → Call
  authenticate : String → Call

module _ (crypto : Crypto) where
  -- the world after a call, whether it returned or failed
  unfoldable pub serve : Call → World → World
  serve (Call.create_product input) w = (Products.create_product input w).1
  serve (Call.patch_product id p) w = (Products.patch_product id p w).1
  serve (Call.revoke_token product_id id) w = (Tokens.revoke_token product_id id w).1
  serve (Call.authenticate token) w = (authenticate_product_token crypto token w).1

  unfoldable pub serve_all : List Call → World → World
  serve_all [] w = w
  serve_all (c ∷ cs) w = serve_all cs (serve c w)

module _ (product_id token_id : String) where
  -- a row of another token, or a revoked one
  abbrev Out : ProductTokenRow → Type 0
  Out t = (of_product product_id t && has_token_id token_id t && is_none t.revoked_at) ≡ false

  abbrev AllOut : Db → Type 0
  AllOut d = All Out d.product_tokens

  AllOut-revoke_row : (now : String) (d : Db) → AllOut (revoke_row product_id token_id now d)
  unfolding revoke_row
  AllOut-revoke_row now d = out d.product_tokens
    where
      out :
          (ts : List ProductTokenRow)
          → All Out (
              update_where
                (λ t. of_product product_id t && has_token_id token_id t)
                (λ t. record t { revoked_at = coalesce t.revoked_at now })
                ts)
      out [] = tt
      out (t ∷ ts) = (ground arith, out ts)

  AllOut-revoke_other : (p i now : String) (d : Db) → AllOut d → AllOut (revoke_row p i now d)
  unfolding revoke_row
  AllOut-revoke_other p i now d h =
      All-update_where Out (λ t. of_product p t && has_token_id i t)
        (λ t. record t { revoked_at = coalesce t.revoked_at now }) d.product_tokens
        (λ t own old. ground (arith, old)) h

  AllOut-touch_row : (i now : String) (d : Db) → AllOut d → AllOut (touch_row i now d)
  unfolding touch_row
  AllOut-touch_row i now d h =
      All-update_where Out (has_token_id i) (λ t. record t { last_used_at = some now })
        d.product_tokens (λ t own old. old) h

  AllOut_of_row : (t : ProductTokenRow) (ts : List ProductTokenRow) → Row t ts → All Out ts → Out t
  AllOut_of_row t [] r h = absurd r
  AllOut_of_row t (u ∷ us) (inl e) h = subst Out e h.0
  AllOut_of_row t (u ∷ us) (inr r) h = AllOut_of_row t us r h.1

  module _ (crypto : Crypto) where
    serve-AllOut : (c : Call) (w : World) → AllOut w.db → AllOut (serve crypto c w).db
    unfolding serve Products.update_product
    serve-AllOut (Call.create_product input) w h =
        Ensures-keeps AllOut _ (create_product_effect input)
          (λ d p d' i s. subst AllOut (sym s.0.2.1) i) (λ d d' i s. subst AllOut (sym s.2.1) i) w tt
          h
    serve-AllOut (Call.patch_product id p) w h =
        Ensures-keeps AllOut _ (patch_product_effect id p)
          (λ d p d' i s. subst AllOut (sym s.0.4) i) (λ d d' i s. subst AllOut (sym s.4) i) w tt h
    serve-AllOut (Call.revoke_token p i) w h =
        Ensures-keeps AllOut _ (revoke_token_effect p i)
          (λ d u d' out s. subst AllOut (sym s.1) (AllOut-revoke_other p i s.0 d out))
          (λ d d' out n. absurd n) w tt h
    serve-AllOut (Call.authenticate token) w h =
        Ensures-keeps AllOut _ (authenticate_product_token_effect crypto token) kept
          (λ d d' out n. absurd n) w tt h
      where
        kept :
            (d : Db) (a : Option AuthenticatedProductToken) (d' : Db)
            → AllOut d
            → Answered crypto token d a d'
            → AllOut d'
        kept d a d' out (inl (_, same, _)) = subst AllOut (sym same) out
        kept d a d' out (inr (t, now, _, _, rows)) =
            subst AllOut (sym rows) (AllOut-touch_row t.id now d out)

    serve_all-AllOut :
        (cs : List Call) (w : World) → AllOut w.db → AllOut (serve_all crypto cs w).db
    unfolding serve_all
    serve_all-AllOut [] w h = h
    serve_all-AllOut (c ∷ cs) w h = serve_all-AllOut cs (serve crypto c w) (serve-AllOut c w h)

    -- A revoked token lets nobody in: where `revoke_token` has returned, then after any calls that
    -- create or patch products, revoke tokens or check them, no text is answered with that product and
    -- that token id.
    pub revoked_stays_out :
        (token : String) (cs : List Call) (w w' : World) (a : AuthenticatedProductToken)
        → (Tokens.revoke_token product_id token_id w).0 ≡ ok tt
        → w'.db ≡ (serve_all crypto cs (Tokens.revoke_token product_id token_id w).1).db
        → (authenticate_product_token crypto token w').0 ≡ ok (some a)
        → ¬ ((a.product_id ≡ product_id) × (a.token_id ≡ token_id))
    revoked_stays_out token cs w w' a revoked later answered (p, i) =
        let (now, rows) = Ensures-ok _ (revoke_token_effect product_id token_id) w tt tt revoked in
        let out : AllOut w'.db =
          subst AllOut (sym later)
            (serve_all-AllOut cs _ (subst AllOut (sym rows) (AllOut-revoke_row now w.db))) in
        elim (Ensures-ok _ (authenticate_product_token_effect crypto token) w' (some a) tt
          answered) [
            | inl (nobody, _, _) ↦ absurd (cc)
            | inr (t, now', authentic, e, _) ↦
                let row : Out t = AllOut_of_row t w'.db.product_tokens authentic.stored out in
                let same = some-injective _ _ e in
                let its_product : t.product_id ≡ product_id =
                  sym (ap (λ (x : AuthenticatedProductToken). x.product_id) same) ∙ p in
                let its_id : t.id ≡ token_id =
                  sym (ap (λ (x : AuthenticatedProductToken). x.token_id) same) ∙ i in
                absurd (
                  ground (
                    arith,
                    row,
                    its_product,
                    its_id,
                    authentic.not_revoked,
                    eq_refl product_id,
                    eq_refl token_id,
                  ))
          ]
