-- ===== src/Store/Products.antt =====
-- store/products.rs: the operations on products. Those on their tokens are in the child Tokens,
-- the proofs in Effects and Sessions.
pub mod Tokens
pub mod Effects
pub mod Sessions
pub mod Revoked
use opendaemon.Prelude.{
  String, Bool, List, [], ◌∷◌, ◌++◌, Option, none, some, any, find, update_where, str_eq, unwrap_or,
  if◌then◌else◌, Result, ok, err,
}
use opendaemon.Product.{
  Product, ProductStatus, CreateProduct, PatchProduct, ProductError, product_not_found,
  product_already_exists, invalid_product, validate_create, validate_patch,
}
use opendaemon.Store.World.{World, Db}
use opendaemon.Store.Exec.{
  Exec, pure, raise, ◌>>=◌, ◌>>◌, call, query, statement, refusable, now_rfc3339, transaction,
  required, lift, map_err,
}

-- `panic` stands for the slice of a token that is not at the boundary of a character
pub data ProductStoreError : Type 0 where
  product : ProductError → ProductStoreError
  product_disabled store panic : ProductStoreError

abbrev pub Op : Type 0 → Type 0
Op = Exec ProductStoreError

-- `.map_err(ProductStoreError::Product)` on a check
abbrev pub checked : {A : Type 0} → Result A ProductError → Op A
checked r = map_err product (lift r)

-- `now_rfc3339().map_err(ProductStoreError::Product)`
abbrev pub product_now : Op String
product_now = now_rfc3339 (product invalid_product)

abbrev pub has_id : String → Product → Bool
has_id id p = str_eq p.id id

abbrev pub product_by_id : String → Db → Option Product
product_by_id id db = find (has_id id) db.products

unfoldable pub get_product : String → Op Product
get_product id = do
  call store
  row ← query store (product_by_id id)
  required (product product_not_found) row

unfoldable pub list_products : Op (List Product)
list_products = do call store; query store (λ db. db.products)

-- the new row; the message of the primary key names `products.id` (`map_sqlite_product_error`)
abbrev pub insert_product : Product → Db → Result Db ProductStoreError
insert_product p db =
    if any (has_id p.id) db.products
    then err (product product_already_exists)
    else ok (record db { products = db.products ++ p ∷ [] })

abbrev pub new_product : CreateProduct → String → Product
new_product input now = record {
  id = input.id;
  display_name = input.display_name;
  status = ProductStatus.active;
  description = input.description;
  created_at = now;
  updated_at = now;
}

-- the transaction of `create_product`
unfoldable pub write_product : Product → Op (Unit {0})
unfolding transaction refusable ◌>>=◌ call
write_product p = transaction (do refusable store (insert_product p); call store)

unfoldable pub create_product : CreateProduct → Op Product
create_product input = do
  checked (validate_create input)
  now ← product_now
  call store
  call store
  write_product (new_product input now)
  get_product input.id

-- the row that `patch_product` builds from the current one
abbrev pub patched : PatchProduct → String → Product → Product
patched p now current = record current {
  display_name = unwrap_or current.display_name p.display_name;
  status = unwrap_or current.status p.status;
  description = unwrap_or current.description p.description;
  updated_at = now;
}

-- the columns that `UPDATE products` sets
abbrev pub set_columns : Product → Product → Product
set_columns updated row = record row {
  display_name = updated.display_name;
  status = updated.status;
  description = updated.description;
  updated_at = updated.updated_at;
}

unfoldable pub update_product : String → Product → Db → Db
update_product id updated db = record db {
  products = update_where (has_id id) (set_columns updated) db.products;
}

unfoldable pub write_update : String → Product → Op (Unit {0})
unfolding transaction statement ◌>>=◌ call
write_update id updated = transaction (do statement store (update_product id updated); call store)

unfoldable pub patch_product : String → PatchProduct → Op Product
patch_product id patch = do
  checked (validate_patch patch)
  current ← get_product id
  now ← product_now
  call store
  call store
  write_update id (patched patch now current)
  get_product id
