-- ===== src/Auth/Sessions.antt =====
-- What the extractors of api/auth.rs let through.
use Prim.Native.String.{◌++◌ as concat}
use opendaemon.Prelude.{
  String, true, ◌≡◌, refl, ap, ◌↔◌, ◌⊎◌, inl, inr, Option, some, none, List, [], ◌∷◌, All, eq_iff,
  if◌then◌else◌, Result, ok, err, arith, Bool-cases,
}
use mathlib.Core.Option.{some-injective}
use opendaemon.Text.{strip_prefix, strip_prefix_lem}
use opendaemon.Product.{ApiScope, ProductTokenRow, has_scope, AuthenticatedProductToken}
use opendaemon.Store.World.{Db}
use opendaemon.Store.Exec.{pure, lift}
use opendaemon.Store.Logic.{
  Ensures, Outcome, Reads-lift, Reads-pure, Ensures-read, Ensures-weaken, Ensures-of_Reads,
}
use opendaemon.Store.Products.{ProductStoreError}
use opendaemon.Store.Products.Tokens.{Crypto, authenticate_product_token, touch_row}
use opendaemon.Store.Products.Sessions.{
  Authentic, Answered, session, authenticate_product_token_effect,
}
use opendaemon.Auth.{
  ProductAuthContext, AuthContext, AuthError, bootstrap, of_product, bearer, bearer_token, nonempty,
  is_bootstrap_token, context, answer, lookup_product, rejecting, authenticate_request,
  require_scopes, has_all,
}

nonempty-eq-ok : (o : Option String) (t : String) → nonempty o ≡ ok t → o ≡ some t
nonempty-eq-ok none t h = absurd (cc)
nonempty-eq-ok (some String.[]) t h = absurd (cc)
nonempty-eq-ok (some (String.◌∷◌ c s)) t h = cc

bearer_token-eq-ok :
    (header : Option (Option String)) (token : String)
    → rejecting (bearer_token header) ≡ ok token
    → header ≡ some (some (concat bearer token))
unfolding bearer_token
bearer_token-eq-ok none token h = absurd (cc)
bearer_token-eq-ok (some none) token h = absurd (cc)
bearer_token-eq-ok (some (some value)) token h =
    ap (λ v. some (some v))
      (strip_prefix_lem bearer value token
        (nonempty-eq-ok (strip_prefix bearer value) token (of_rejecting _ h)))
  where
    of_rejecting : (r : Result String AuthError) → rejecting r ≡ ok token → r ≡ ok token
    of_rejecting (ok a) e = cc
    of_rejecting (err e) q = absurd (cc)

is_bootstrap_token_lem :
    (configured : Option String) (token : String)
    → is_bootstrap_token configured token ≡ true
    → configured ≡ some token
unfolding is_bootstrap_token
is_bootstrap_token_lem none token h = absurd (cc)
is_bootstrap_token_lem (some value) token h = ap some ((eq_iff value token).0 h)

module _ (crypto : Crypto) (configured : Option String) (header : Option (Option String)) where
  -- a request with the bootstrap token, or with that of an authentic row
  abbrev pub Authenticated : Db → AuthContext → Db → Type 0
  Authenticated d c d' =
      (token : String) × (header ≡ some (some (concat bearer token)))
      × (((configured ≡ some token) × (c ≡ bootstrap) × (d' ≡ d))
          ⊎ ((t : ProductTokenRow) × (now : String) × Authentic crypto token d t
              × (c ≡ of_product (context (session crypto token t)))
              × (d' ≡ touch_row t.id now d)))

  Ensures-lookup_product :
      (token : String)
      → Ensures
          (λ _. Unit)
          (λ d c d'.
            (t : ProductTokenRow) × (now : String) × Authentic crypto token d t
            × (c ≡ of_product (context (session crypto token t)))
            × (d' ≡ touch_row t.id now d))
          (λ _ _. ⊥)
          (lookup_product crypto token)
  unfolding lookup_product
  Ensures-lookup_product token = record {
    at = λ w q.
        go (authenticate_product_token crypto token w).0 w.db
          (authenticate_product_token crypto token w).1.db
          ((authenticate_product_token_effect crypto token).at w tt);
  }
    where
      go :
          (r : Result (Option AuthenticatedProductToken) ProductStoreError) (d d' : Db)
          → Outcome (Answered crypto token) (λ _ _. ⊥) d r d'
          → Outcome
              (λ d c d'.
                (t : ProductTokenRow) × (now : String) × Authentic crypto token d t
                × (c ≡ of_product (context (session crypto token t)))
                × (d' ≡ touch_row t.id now d))
              (λ _ _. ⊥)
              d
              (answer r)
              d'
      go (ok none) d d' (inl (e, same, _)) = inl same
      go (ok none) d d' (inr (t, now, a, e, rows)) = absurd (cc)
      go (ok (some a)) d d' (inl (e, same, _)) = absurd (cc)
      go (ok (some a)) d d' (inr (t, now, authentic, e, rows)) =
          (t, now, authentic, ap (λ x. of_product (context x)) (some-injective _ _ e), rows)
      go (err (ProductStoreError.product e)) d d' (inl same) = inl same
      go (err ProductStoreError.product_disabled) d d' (inl same) = inl same
      go (err ProductStoreError.store) d d' (inl same) = inl same
      go (err ProductStoreError.panic) d d' (inl same) = inl same
      go (err e) d d' (inr n) = absurd n

  -- A request is let through with the configured bootstrap token, and then nothing changes, or with
  -- the token of a row that is authentic, and then its context has the ids and scopes of that row and
  -- the time of the token's last use is noted. A request that is refused changes nothing.
  pub authenticate_request_effect :
      Ensures (λ _. Unit) Authenticated (λ _ _. ⊥) (authenticate_request crypto configured header)
  unfolding authenticate_request
  authenticate_request_effect =
      Ensures-read {Pre = λ _. Unit} (lift (rejecting (bearer_token header))) _ (Reads-lift _)
        branch
    where
      branch :
          (token : String)
          → Ensures
              (λ d. Unit {0} × (rejecting (bearer_token header) ≡ ok token))
              Authenticated
              (λ _ _. ⊥)
              (if is_bootstrap_token configured token
                then pure bootstrap
                else lookup_product crypto token)
      branch token = elim (Bool-cases (is_bootstrap_token configured token)) [
        | inl e ↦ rw e (
            Ensures-weaken _ (λ d q. q)
              (λ d c d' q h. (
                token,
                bearer_token-eq-ok header token q.1,
                inl (is_bootstrap_token_lem configured token e, h.1, h.0),
              ))
              (λ d d' q n. n) (Ensures-of_Reads _ (Reads-pure bootstrap)))
        | inr e ↦ rw e (
            Ensures-weaken _ (λ d q. tt)
              (λ d c d' q h. (token, bearer_token-eq-ok header token q.1, inr h)) (λ d d' q n. n)
              (Ensures-lookup_product token))
      ]

-- The context of a product passes `require_scopes` just when it has every scope that is asked for.
pub require_scopes_iff :
    (c : ProductAuthContext) (scopes : List ApiScope)
    → (require_scopes c scopes ≡ ok tt) ↔ All (λ s. has_scope c.scopes s ≡ true) scopes
unfolding require_scopes
require_scopes_iff c scopes =
    (λ h. all_held scopes (ground (arith, h)), λ h. rw (held_all scopes h) refl)
  where
    all_held :
        (ss : List ApiScope)
        → has_all c.scopes ss ≡ true
        → All (λ s. has_scope c.scopes s ≡ true) ss
    all_held [] h = tt
    all_held (s ∷ ss) h = ground (arith, all_held ss)

    held_all :
        (ss : List ApiScope)
        → All (λ s. has_scope c.scopes s ≡ true) ss
        → has_all c.scopes ss ≡ true
    held_all [] h = refl
    held_all (s ∷ ss) h = ground (arith, held_all ss h.1)
