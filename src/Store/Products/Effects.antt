-- ===== src/Store/Products/Effects.antt =====
-- What creating and patching a product does to the tables.
use opendaemon.Prelude.{
  String, ◌≡◌, sym, ◌∙◌, ◌⊎◌, inl, inr, some, ◌∷◌, [], ◌++◌, any, false, ok, err, arith,
}
use opendaemon.Product.{
  Product, CreateProduct, PatchProduct, product_not_found, invalid_product, validate_create,
  validate_patch,
}
use opendaemon.Store.World.{World, Db}
use opendaemon.Store.Exec.{call, query}
use opendaemon.Store.Logic.{
  Reads, Ensures, Anything, Reads-then, Reads-bind, Reads-call, Reads-query, Reads-required,
  Reads-weaken, Reads-now_rfc3339, Reads-lift, Reads-map_err, Ensures-read, Ensures-then,
  Ensures-write, Ensures-weaken,
}
use opendaemon.Store.Logic.Writes.{Ensures-of_cases}
use opendaemon.Store.Products.{
  ProductStoreError, product, store, checked, product_now, has_id, product_by_id, get_product,
  new_product, write_product, create_product, patched, update_product, write_update, patch_product,
}

pub Reads-get_product : (id : String) → Reads (λ d p. product_by_id id d ≡ some p) (get_product id)
unfolding get_product
Reads-get_product id =
    Reads-weaken _ (λ d g h. sym h.1 ∙ h.2)
      (Reads-then (call store) _ (Reads-call store) (
        Reads-bind (query store (product_by_id id)) _ (Reads-query store (product_by_id id))
          λ row. Reads-required (product product_not_found) row))

pub Reads-product_now : Reads Anything product_now
Reads-product_now = Reads-now_rfc3339 (product invalid_product)

-- a new row, its id being free
abbrev pub Inserted : Product → Db → Db → Type 0
Inserted p d d' =
    (any (has_id p.id) d.products ≡ false) × (d' ≡ record d { products = d.products ++ p ∷ [] })

module _ (p : Product) where
  write_product_cases :
      (w : World)
      → ((e : ProductStoreError) × ((write_product p w).0 ≡ err e)
          × ((write_product p w).1.db ≡ w.db))
        ⊎ (((write_product p w).0 ≡ ok tt) × Inserted p w.db (write_product p w).1.db)
  unfolding write_product
  write_product_cases w = ground arith

  Ensures-write_product :
      Ensures (λ _. Unit) (λ d _ d'. Inserted p d d') (λ _ _. ⊥) (write_product p)
  Ensures-write_product = Ensures-of_cases (write_product p) λ w. elim (write_product_cases w) [
    | inl failed ↦ inl failed
    | inr (e, rows) ↦ inr (tt, e, rows)
  ]

-- the product of a request that passes `validate`, active from the time of the call on
abbrev pub Created : CreateProduct → Db → Db → Type 0
Created input d d' =
    (now : String) × (validate_create input ≡ ok tt) × Inserted (new_product input now) d d'

-- `create_product` adds one active product, under an id that no product had, and only for a request
-- that passes `validate`; what it returns is the row of that id. Where it fails, nothing changed, or
-- (the failure being in reading the row back) that product was added.
pub create_product_effect :
    (input : CreateProduct)
    → Ensures
        (λ _. Unit)
        (λ d p d'. Created input d d' × (product_by_id input.id d' ≡ some p))
        (Created input)
        (create_product input)
unfolding create_product
create_product_effect input =
    Ensures-read {Pre = λ _. Unit} (checked (validate_create input)) _
      (Reads-map_err product _ (Reads-lift (validate_create input)))
      λ u. Ensures-read product_now _ Reads-product_now λ now.
        Ensures-then (call store) _ (Reads-call store) (
          Ensures-then (call store) _ (Reads-call store) (
            Ensures-weaken _ (λ d q. tt) (λ d p d' q h. ((now, q.0.1, h.1), h.2))
              (λ d d' q h. (now, q.0.1, h.1))
              (Ensures-write (write_product (new_product input now)) _
                (Ensures-write_product (new_product input now)) λ _. Reads-get_product input.id)))

abbrev pub Patched : String → PatchProduct → Db → Db → Type 0
Patched id patch d d' =
    (current : Product) × (now : String) × (validate_patch patch ≡ ok tt)
    × (product_by_id id d ≡ some current)
    × (d' ≡ update_product id (patched patch now current) d)

module _ (id : String) (updated : Product) where
  write_update_cases :
      (w : World)
      → ((e : ProductStoreError) × ((write_update id updated w).0 ≡ err e)
          × ((write_update id updated w).1.db ≡ w.db))
        ⊎ (((write_update id updated w).0 ≡ ok tt)
            × ((write_update id updated w).1.db ≡ update_product id updated w.db))
  unfolding write_update
  write_update_cases w = ground arith

  Ensures-write_update :
      Ensures
        (λ _. Unit)
        (λ d _ d'. d' ≡ update_product id updated d)
        (λ _ _. ⊥)
        (write_update id updated)
  Ensures-write_update = Ensures-of_cases (write_update id updated) λ w.
      elim (write_update_cases w) [ inl failed ↦ inl failed | inr (e, rows) ↦ inr (tt, e, rows) ]

pub patch_product_effect :
    (id : String) (patch : PatchProduct)
    → Ensures
        (λ _. Unit)
        (λ d p d'. Patched id patch d d' × (product_by_id id d' ≡ some p))
        (Patched id patch)
        (patch_product id patch)
unfolding patch_product
patch_product_effect id patch =
    Ensures-read {Pre = λ _. Unit} (checked (validate_patch patch)) _
      (Reads-map_err product _ (Reads-lift (validate_patch patch)))
      λ u. Ensures-read (get_product id) _ (Reads-get_product id) λ current.
        Ensures-read product_now _ Reads-product_now λ now.
          Ensures-then (call store) _ (Reads-call store) (
            Ensures-then (call store) _ (Reads-call store) (
              Ensures-weaken _ (λ d q. tt)
                (λ d p d' q h. ((current, now, q.0.0.1, q.0.1, h.1), h.2))
                (λ d d' q h. (current, now, q.0.0.1, q.0.1, h.1))
                (Ensures-write (write_update id (patched patch now current)) _
                  (Ensures-write_update id (patched patch now current)) λ _. Reads-get_product id)))
