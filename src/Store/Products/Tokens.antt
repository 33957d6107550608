-- ===== src/Store/Products/Tokens.antt =====
-- store/products.rs: the tokens of products. SHA-256 and the hexadecimal coding are a record of
-- functions, a digest being the list of its bytes; the random bytes of a new token are an argument.
use Prim.Native.String.{◌++◌ as concat, len}
use text.Mathlib.Text.{starts_with, get?}
use opendaemon.Prelude.{
  ℕ, String, Bool, true, false, not, ◌&&◌, ◌||◌, ◌==◌, ltb, List, [], ◌∷◌, ◌++◌, Option, none, some,
  any, select, find, update_where, update_last, length, map, str_eq, is_none, if◌then◌else◌, Result,
  ok, err, btree_set,
}
use opendaemon.Text.Decimal.{show}
use opendaemon.Product.{
  Product, ProductStatus, ProductToken, ProductTokenRow, ProductTokenStatus, CreateProductToken,
  CreatedProductToken, AuthenticatedProductToken, ApiScope, product_already_exists, validate_token,
  normalize_scopes, scope_rank,
}
use opendaemon.Store.World.{Db}
use opendaemon.Store.Exec.{
  pure, ◌>>=◌, ◌>>◌, call, query, statement, constrained, refusable, transaction, lift,
}
use opendaemon.Store.Products.{
  ProductStoreError, product, product_disabled, store, panic, Op, checked, product_now, has_id,
  get_product,
}

-- `Sha256::digest(text.as_bytes())`, `hex::encode` and `hex::decode`
pub record Crypto : Type 0 where
  pub sha256 : String → List ℕ
  pub encode : List ℕ → String
  pub decode : String → Option (List ℕ)

abbrev pub token_prefix_len : ℕ
token_prefix_len = 9

abbrev pub product_token_prefix : String
product_token_prefix = "odpk_"

-- `&token[..TOKEN_PREFIX_LEN]`
unfoldable pub token_prefix : String → Result String ProductStoreError
token_prefix token = elim (get? token 0 token_prefix_len) [ none ↦ err panic | some p ↦ ok p ]

abbrev pub of_product : String → ProductTokenRow → Bool
of_product product_id t = str_eq t.product_id product_id

abbrev pub has_token_id : String → ProductTokenRow → Bool
has_token_id id t = str_eq t.id id

-- `row_to_token`
abbrev pub token_status : Option String → ProductTokenStatus
token_status none = ProductTokenStatus.active
token_status (some _) = ProductTokenStatus.revoked

unfoldable pub row_to_token : ProductTokenRow → ProductToken
row_to_token t = record {
  id = t.id;
  product_id = t.product_id;
  label = t.label;
  scopes = t.scopes;
  token_prefix = t.token_prefix;
  status = token_status t.revoked_at;
  created_at = t.created_at;
  last_used_at = t.last_used_at;
  revoked_at = t.revoked_at;
}

unfoldable pub list_tokens : String → Op (List ProductToken)
unfolding row_to_token
list_tokens product_id = do
  get_product product_id
  call store
  query store (λ db. map row_to_token (select (of_product product_id) db.product_tokens))

-- the row that is inserted, its id still empty; of the table's two keys, only the message of the
-- digest's names a column that `map_sqlite_product_error` knows
abbrev pub insert_token : ProductTokenRow → Db → Result Db ProductStoreError
insert_token t db =
    if any (has_token_id t.id) db.product_tokens
    then err store
    else if any (λ old. str_eq old.token_digest_hex t.token_digest_hex) db.product_tokens
    then err (product product_already_exists)
    else ok (record db { product_tokens = db.product_tokens ++ t ∷ [] })

-- `format!("ptok_{row_id}")`
unfoldable pub token_id_of : ℕ → String
token_id_of row_id = concat "ptok_" (show row_id)

abbrev pub set_last_id : String → Db → Option Db
set_last_id id db =
    if any (has_token_id id) db.product_tokens
    then none
    else some
        (record db { product_tokens = update_last (λ t. record t { id = id }) db.product_tokens })

-- the transaction of `create_token`: rows are never deleted from `product_tokens`, so the new
-- rowid is the number of rows
unfoldable pub write_token : ProductTokenRow → Op String
unfolding transaction refusable constrained ◌>>=◌ call pure
write_token t = transaction (do
  refusable store (insert_token t)
  id ← (λ w. (ok (token_id_of (length w.db.product_tokens)), w))
  constrained store (set_last_id id)
  call store
  pure id)

module _ (crypto : Crypto) where
  -- `generate_token` of 24 random bytes
  abbrev pub generate_token : List ℕ → String
  generate_token bytes = concat product_token_prefix (crypto.encode bytes)

  abbrev pub token_digest_hex : String → String
  token_digest_hex token = crypto.encode (crypto.sha256 token)

  abbrev pub new_token :
      String → CreateProductToken → List ApiScope → String → String → String → ProductTokenRow
  new_token product_id input scopes prefix token now = record {
    id = "";
    product_id = product_id;
    label = input.label;
    scopes = scopes;
    token_prefix = prefix;
    token_digest_hex = token_digest_hex token;
    created_at = now;
    last_used_at = none;
    revoked_at = none;
  }

  abbrev pub created : String → String → ProductTokenRow → CreatedProductToken
  created id token t = record {
    id = id;
    product_id = t.product_id;
    label = t.label;
    scopes = t.scopes;
    token_prefix = t.token_prefix;
    token = token;
    created_at = t.created_at;
  }

  unfoldable pub create_token : List ℕ → String → CreateProductToken → Op CreatedProductToken
  create_token bytes product_id input = do
    get_product product_id
    checked (validate_token input)
    scopes ← checked (normalize_scopes input.scopes)
    prefix ← lift (token_prefix (generate_token bytes))
    now ← product_now
    call store
    call store
    id ← write_token (new_token product_id input scopes prefix (generate_token bytes) now)
    pure (
        created id (generate_token bytes)
          (new_token product_id input scopes prefix (generate_token bytes) now))

-- `COALESCE(revoked_at, ?)`
abbrev pub coalesce : Option String → String → Option String
coalesce none now = some now
coalesce (some t) now = some t

unfoldable pub revoke_row : String → String → String → Db → Db
revoke_row product_id token_id now db = record db {
  product_tokens =
      update_where (λ t. of_product product_id t && has_token_id token_id t)
        (λ t. record t { revoked_at = coalesce t.revoked_at now }) db.product_tokens;
}

unfoldable pub revoke_token : String → String → Op (Unit {0})
revoke_token product_id token_id = do
  get_product product_id
  now ← product_now
  call store
  statement store (revoke_row product_id token_id now)

unfoldable pub touch_row : String → String → Db → Db
touch_row token_id now db = record db {
  product_tokens =
      update_where (has_token_id token_id) (λ t. record t { last_used_at = some now })
        db.product_tokens;
}

unfoldable pub touch_last_used : String → Op (Unit {0})
touch_last_used token_id = do
  now ← product_now
  call store
  statement store (touch_row token_id now)

-- the rows of `product_tokens` joined with their product, of the given prefix and not revoked;
-- `products.id` is a primary key, so that a token has one product at most
abbrev pub with_product :
    ProductTokenRow
    → Option Product
    → List (ProductTokenRow × Product)
    → List (ProductTokenRow × Product)
with_product t none rest = rest
with_product t (some p) rest = (t, p) ∷ rest

abbrev pub is_live : String → ProductTokenRow → Bool
is_live prefix t = str_eq t.token_prefix prefix && is_none t.revoked_at

abbrev pub joined : String → List Product → List ProductTokenRow → List (ProductTokenRow × Product)
joined prefix products [] = []
joined prefix products (t ∷ ts) =
    let rest = joined prefix products ts in
    if is_live prefix t then with_product t (find (has_id t.product_id) products) rest else rest

-- `ct_eq` of two slices
abbrev pub ct_eq : List ℕ → List ℕ → Bool
ct_eq [] [] = true
ct_eq [] (y ∷ ys) = false
ct_eq (x ∷ xs) [] = false
ct_eq (x ∷ xs) (y ∷ ys) = x == y && ct_eq xs ys

abbrev pub is_disabled : ProductStatus → Bool
is_disabled ProductStatus.active = false
is_disabled ProductStatus.disabled = true

module _ (crypto : Crypto) where
  abbrev pub Chosen : Type 0
  Chosen = Result (Option ProductTokenRow) ProductStoreError

  -- the body of the loop, on a row whose digest has been decoded, `rest` being what the next rows
  -- give
  abbrev pub choose_row : String → ProductTokenRow → Product → Option (List ℕ) → Chosen → Chosen
  choose_row token t p none rest = err store
  choose_row token t p (some stored) rest =
      if ct_eq stored (crypto.sha256 token)
      then if is_disabled p.status
        then err product_disabled
        else if not (str_eq (token_digest_hex crypto token) (token_digest_hex crypto token))
        then rest
        else ok (some t)
      else rest

  -- the loop of `authenticate_product_token`, up to the row that it returns from
  abbrev pub choose : String → List (ProductTokenRow × Product) → Chosen
  choose token [] = ok none
  choose token (r ∷ rows) =
      choose_row token r.0 r.1 (crypto.decode r.0.token_digest_hex) (choose token rows)

  unfoldable pub accept : Option ProductTokenRow → Op (Option AuthenticatedProductToken)
  accept none = pure none
  accept (some t) = do
    touch_last_used t.id
    pure (
        some (record {
          token_id = t.id;
          product_id = t.product_id;
          scopes = btree_set scope_rank t.scopes;
        }))

  -- the test at the top of `authenticate_product_token`
  abbrev pub is_malformed : String → Bool
  is_malformed token =
      not (starts_with token product_token_prefix) || ltb (len token) token_prefix_len

  unfoldable pub look_up : String → Op (Option AuthenticatedProductToken)
  look_up token = do
    prefix ← lift (token_prefix token)
    call store
    rows ← query store (λ db. joined prefix db.products db.product_tokens)
    found ← lift (choose token rows)
    accept found

  unfoldable pub authenticate_product_token : String → Op (Option AuthenticatedProductToken)
  authenticate_product_token token = if is_malformed token then pure none else look_up token
