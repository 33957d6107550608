-- ===== src/Store/Products/Sessions.antt =====
-- Whom `authenticate_product_token` of store/products.rs lets in.
use opendaemon.Prelude.{
  ℕ, String, true, ◌≡◌, ◌≢◌, refl, subst, ◌⊎◌, inl, inr, Option, some, none, List, [], ◌∷◌, All,
  find, eq_refl, Result, ok, err, arith, Bool-cases, btree_set, Option-cases,
}
use opendaemon.Product.{
  Product, ProductStatus, ProductTokenRow, AuthenticatedProductToken, scope_rank,
}
use opendaemon.Store.World.{World, Db}
use opendaemon.Store.Exec.{pure, ◌>>=◌, call, lift, statement, now_rfc3339}
use opendaemon.Store.Logic.{
  Ensures, Reads-call, Reads-query, Reads-lift, Ensures-read, Ensures-then, Ensures-weaken,
}
use opendaemon.Store.Logic.Writes.{Ensures-of_cases}
use opendaemon.Store.Products.{ProductStoreError, store, has_id, product_by_id}
use opendaemon.Store.Products.Tokens.{
  Crypto, token_prefix, is_live, joined, ct_eq, choose, choose_row, accept, is_malformed, look_up,
  authenticate_product_token, touch_last_used, touch_row, token_digest_hex,
}

-- `t` is a row of the list
abbrev pub Row : ProductTokenRow → List ProductTokenRow → Type 0
Row t [] = ⊥
Row t (u ∷ us) = (u ≡ t) ⊎ Row t us

ct_eq_sound : (xs ys : List ℕ) → ct_eq xs ys ≡ true → xs ≡ ys
ct_eq_sound [] [] h = refl
ct_eq_sound [] (y ∷ ys) h = absurd (cc)
ct_eq_sound (x ∷ xs) [] h = absurd (cc)
ct_eq_sound (x ∷ xs) (y ∷ ys) h = ground (arith, ct_eq_sound xs ys)

ct_eq_refl : (xs : List ℕ) → ct_eq xs xs ≡ true
ct_eq_refl [] = refl
ct_eq_refl (x ∷ xs) = ground (arith, ct_eq_refl xs)

-- a row adds itself with its product, or nothing
joined_cases :
    (prefix : String) (ps : List Product) (t : ProductTokenRow) (ts : List ProductTokenRow)
    → (joined prefix ps (t ∷ ts) ≡ joined prefix ps ts)
      ⊎ ((p : Product) × (find (has_id t.product_id) ps ≡ some p)
          × (t.revoked_at ≡ none)
          × (joined prefix ps (t ∷ ts) ≡ (t, p) ∷ joined prefix ps ts))
joined_cases prefix ps t ts = elim (Bool-cases (is_live prefix t)) [
  | inr dead ↦ inl (rw dead refl)
  | inl live ↦ elim (Option-cases (find (has_id t.product_id) ps)) [
    | inl orphan ↦ inl (rw (live, orphan) refl)
    | inr (p, found) ↦ inr (p, found, ground arith, rw (live, found) refl)
  ]
]

module _ (crypto : Crypto) (token : String) where
  -- the row of a token that is not revoked, of an active product, with the digest of the token
  pub record Authentic (d : Db) (t : ProductTokenRow) : Type 0 where
    pub stored : Row t d.product_tokens
    pub not_revoked : t.revoked_at ≡ none
    pub digest : crypto.decode t.token_digest_hex ≡ some (crypto.sha256 token)
    pub owner : Product
    pub owner_found : product_by_id t.product_id d ≡ some owner
    pub owner_active : owner.status ≡ ProductStatus.active

  choose_row_hit :
      (t u : ProductTokenRow) (p : Product) (o : Option (List ℕ))
      (rest : Result (Option ProductTokenRow) ProductStoreError)
      → choose_row crypto token t p o rest ≡ ok (some u)
      → ((t ≡ u) × (o ≡ some (crypto.sha256 token)) × (p.status ≡ ProductStatus.active))
        ⊎ (rest ≡ ok (some u))
  choose_row_hit t u p none rest h = absurd (cc)
  choose_row_hit t u p (some stored) rest h =
      ground (arith, ct_eq_sound stored (crypto.sha256 token))

  choose_hit :
      (prefix : String) (ps : List Product) (ts : List ProductTokenRow) (u : ProductTokenRow)
      → choose crypto token (joined prefix ps ts) ≡ ok (some u)
      → Row u ts
        × (u.revoked_at ≡ none)
        × (crypto.decode u.token_digest_hex ≡ some (crypto.sha256 token))
        × ((p : Product) × (find (has_id u.product_id) ps ≡ some p)
            × (p.status ≡ ProductStatus.active))
  choose_hit prefix ps [] u h = absurd (cc)
  choose_hit prefix ps (t ∷ ts) u h = elim (joined_cases prefix ps t ts) [
    | inl e ↦
        let (r, live, digest, owner) = choose_hit prefix ps ts u (along e) in
        (inr r, live, digest, owner)
    | inr (p, found, live, e) ↦ elim (choose_row_hit t u p _ _ (along e)) [
      | inl (same, digest, active) ↦ (
        inl same,
        subst (λ x. x.revoked_at ≡ none) same live,
        subst (λ x. crypto.decode x.token_digest_hex ≡ some (crypto.sha256 token)) same digest,
        (p, subst (λ x. find (has_id x.product_id) ps ≡ some p) same found, active),
      )
      | inr later ↦
          let (r, live', digest, owner) = choose_hit prefix ps ts u later in
          (inr r, live', digest, owner)
    ]
  ]
    where
      along :
          {rows : List (ProductTokenRow × Product)}
          → joined prefix ps (t ∷ ts) ≡ rows
          → choose crypto token rows ≡ ok (some u)
      along e = subst (λ rows. choose crypto token rows ≡ ok (some u)) e h

  choose_row_miss :
      (t : ProductTokenRow) (p : Product) (o : Option (List ℕ))
      (rest : Result (Option ProductTokenRow) ProductStoreError)
      → choose_row crypto token t p o rest ≡ ok none
      → (o ≢ some (crypto.sha256 token)) × (rest ≡ ok none)
  choose_row_miss t p none rest h = absurd (cc)
  choose_row_miss t p (some stored) rest h = (
    λ e.
        ground
          (arith, e, ct_eq_refl (crypto.sha256 token), eq_refl (token_digest_hex crypto token)),
    ground (arith, eq_refl (token_digest_hex crypto token)),
  )

  -- where the loop ends without a row, none of the rows has the digest of the token
  abbrev pub NoDigest : List (ProductTokenRow × Product) → Type 0
  NoDigest = All (λ r. crypto.decode r.0.token_digest_hex ≢ some (crypto.sha256 token))

  choose_miss :
      (rows : List (ProductTokenRow × Product)) → choose crypto token rows ≡ ok none → NoDigest rows
  choose_miss [] h = tt
  choose_miss (r ∷ rows) h =
      let (differs, rest) = choose_row_miss r.0 r.1 (crypto.decode r.0.token_digest_hex) _ h in
      (differs, choose_miss rows rest)

  -- the answer to the bearer of the row's token
  abbrev pub session : ProductTokenRow → AuthenticatedProductToken
  session t = record {
    token_id = t.id;
    product_id = t.product_id;
    scopes = btree_set scope_rank t.scopes;
  }

  -- The two ways in which it succeeds. No row: nothing changes, and the token has not the form of a
  -- token or no row in question has its digest. A row: it is authentic, the answer is made of it, and
  -- the time of its last use is noted.
  abbrev pub Answered : Db → Option AuthenticatedProductToken → Db → Type 0
  Answered d a d' =
      ((a ≡ none)
        × (d' ≡ d)
        × ((is_malformed crypto token ≡ true)
            ⊎ ((prefix : String) × (token_prefix token ≡ ok prefix)
                × NoDigest (joined prefix d.products d.product_tokens))))
      ⊎ ((t : ProductTokenRow) × (now : String) × Authentic d t
          × (a ≡ some (session t))
          × (d' ≡ touch_row t.id now d))

  Touched : ProductTokenRow → Db → Option AuthenticatedProductToken → Db → Type 0
  Touched t d a d' = (now : String) × (a ≡ some (session t)) × (d' ≡ touch_row t.id now d)

  accept_cases :
      (t : ProductTokenRow) (w : World)
      → ((e : ProductStoreError) × ((accept crypto (some t) w).0 ≡ err e)
          × ((accept crypto (some t) w).1.db ≡ w.db))
        ⊎ (((accept crypto (some t) w).0 ≡ ok (some (session t)))
            × ((accept crypto (some t) w).1.db ≡ touch_row t.id (w.stamp w.calls) w.db))
  unfolding accept touch_last_used ◌>>=◌ call statement now_rfc3339
  accept_cases t w = ground arith

  Ensures-accept :
      (found : Option ProductTokenRow) (rows : List (ProductTokenRow × Product)) (prefix : String)
      → Ensures
          (λ d.
            (token_prefix token ≡ ok prefix)
            × (rows ≡ joined prefix d.products d.product_tokens)
            × (choose crypto token rows ≡ ok found))
          Answered
          (λ _ _. ⊥)
          (accept crypto found)
  unfolding accept pure Touched
  Ensures-accept none rows prefix = record {
    at = λ w q. inl (refl, refl, inr (prefix, q.0, subst NoDigest q.1 (choose_miss rows q.2)));
  }
  Ensures-accept (some t) rows prefix =
      Ensures-weaken _ (λ d q. tt)
        (λ d a d' q h.
          let (now, e, rows') = h in
          let (r, live, digest, (p, found, active)) =
            choose_hit prefix d.products d.product_tokens t
              (subst (λ x. choose crypto token x ≡ ok (some t)) q.1 q.2) in
          inr (
            t,
            now,
            record {
              stored = r;
              not_revoked = live;
              digest = digest;
              owner = p;
              owner_found = found;
              owner_active = active;
            },
            e,
            rows',
          ))
        (λ d d' q h. h)
        (Ensures-of_cases {S = Touched t} (accept crypto (some t)) λ w. elim (accept_cases t w) [
          | inl failed ↦ inl failed
          | inr (e, rows') ↦ inr (some (session t), e, (w.stamp w.calls, refl, rows'))
        ])

  -- `authenticate_product_token` lets in only the bearer of an authentic token: one whose digest is
  -- in a row that is not revoked, of an active product; the answer has the ids and the scopes of that
  -- row, and only the time of the token's last use changes. It answers nobody only where the text is
  -- not a token or no row with its prefix that is not revoked has its digest. Where it fails, nothing
  -- changed.
  pub authenticate_product_token_effect :
      Ensures (λ _. Unit) Answered (λ _ _. ⊥) (authenticate_product_token crypto token)
  unfolding authenticate_product_token look_up pure
  authenticate_product_token_effect = elim (Bool-cases (is_malformed crypto token)) [
    | inl e ↦ rw e (record { at = λ w q. inl (refl, refl, inl e) })
    | inr e ↦ rw e (
        Ensures-read {Pre = λ _. Unit} (lift (token_prefix token)) _
          (Reads-lift (token_prefix token))
          λ prefix. Ensures-then (call store) _ (Reads-call store) (
            Ensures-read _ _ (Reads-query store _) λ rows.
              Ensures-read _ _ (Reads-lift (choose crypto token rows)) λ found.
                Ensures-weaken _ (λ d q. (q.0.0.1, q.0.1, q.1)) (λ d a d' q h. h) (λ d d' q h. h)
                  (Ensures-accept found rows prefix)))
  ]
