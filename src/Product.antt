-- ===== src/Product.antt =====
-- product/mod.rs: products, the scopes of their tokens, and what is checked of what a request says
-- of them. `ProductTokenRow` is a row of the table `product_tokens`.
pub mod Scopes
use opendaemon.Prelude.{
  ℕ, String, Bool, true, false, ◌&&◌, ◌||◌, not, ◌==◌, List, [], ◌∷◌, Option, none, some, any,
  is_none, if◌then◌else◌, Result, ok, err, and_then, btree_set,
}
use opendaemon.Text.{is_blank, is_id, contains_nul}

pub data ProductStatus : Type 0 where
  active disabled : ProductStatus

pub record Product : Type 0 where
  pub id : String
  pub display_name : String
  pub status : ProductStatus
  pub description : Option String
  pub created_at : String
  pub updated_at : String

pub record CreateProduct : Type 0 where
  pub id : String
  pub display_name : String
  pub description : Option String

pub record PatchProduct : Type 0 where
  pub display_name : Option String
  pub description : Option (Option String)
  pub status : Option ProductStatus

pub data ApiScope : Type 0 where
  providers_read runtimes_read agents_read agents_write directories_read : ApiScope
  directories_grant directories_direct tasks_create tasks_read tasks_cancel : ApiScope
  tasks_remote_execution : ApiScope

-- the order that is derived, by the position of the variant
abbrev pub scope_rank : ApiScope → ℕ
scope_rank providers_read = 0
scope_rank runtimes_read = 1
scope_rank agents_read = 2
scope_rank agents_write = 3
scope_rank directories_read = 4
scope_rank directories_grant = 5
scope_rank directories_direct = 6
scope_rank tasks_create = 7
scope_rank tasks_read = 8
scope_rank tasks_cancel = 9
scope_rank tasks_remote_execution = 10

-- `scopes.contains(&scope)`
abbrev pub has_scope : List ApiScope → ApiScope → Bool
has_scope scopes scope = any (λ s. scope_rank scope == scope_rank s) scopes

pub data ProductTokenStatus : Type 0 where
  active revoked : ProductTokenStatus

pub record ProductToken : Type 0 where
  pub id : String
  pub product_id : String
  pub label : String
  pub scopes : List ApiScope
  pub token_prefix : String
  pub status : ProductTokenStatus
  pub created_at : String
  pub last_used_at : Option String
  pub revoked_at : Option String

pub record ProductTokenRow : Type 0 where
  pub id : String
  pub product_id : String
  pub label : String
  pub scopes : List ApiScope
  pub token_prefix : String
  pub token_digest_hex : String
  pub created_at : String
  pub last_used_at : Option String
  pub revoked_at : Option String

pub record CreateProductToken : Type 0 where
  pub label : String
  pub scopes : List ApiScope

pub record CreatedProductToken : Type 0 where
  pub id : String
  pub product_id : String
  pub label : String
  pub scopes : List ApiScope
  pub token_prefix : String
  pub token : String
  pub created_at : String

-- the scopes are a `BTreeSet`, the list of its elements in their order
pub record AuthenticatedProductToken : Type 0 where
  pub token_id : String
  pub product_id : String
  pub scopes : List ApiScope

pub data ProductError : Type 0 where
  product_not_found product_already_exists invalid_product invalid_product_id : ProductError
  invalid_product_token : ProductError

unfoldable pub code : ProductError → String
code product_not_found = "product_not_found"
code product_already_exists = "product_already_exists"
code invalid_product = "invalid_product"
code invalid_product_id = "invalid_product_id"
code invalid_product_token = "invalid_product_token"

unfoldable pub message : ProductError → String
message product_not_found = "product not found"
message product_already_exists = "product already exists"
message invalid_product = "invalid product"
message invalid_product_id = "invalid product id"
message invalid_product_token = "invalid product token"

abbrev pub Checked : Type 0
Checked = Result (Unit {0}) ProductError

unfoldable pub validate_id : String → Checked
validate_id id = if is_id id then ok tt else err invalid_product_id

unfoldable pub validate_required_string : String → Checked
validate_required_string value = if is_blank value then err invalid_product else ok tt

unfoldable pub validate_optional_string : String → Checked
validate_optional_string value = if contains_nul value then err invalid_product else ok tt

-- `if let Some(value) = …`
abbrev pub if_some : {A : Type 0} → Option A → (A → Checked) → Checked
if_some none f = ok tt
if_some (some a) f = f a

-- `CreateProduct::validate`
unfoldable pub validate_create : CreateProduct → Checked
unfolding validate_id validate_required_string validate_optional_string
validate_create p = and_then (validate_id p.id) λ _.
    and_then (validate_required_string p.display_name)
      λ _. if_some p.description validate_optional_string

-- `PatchProduct::validate`
unfoldable pub validate_patch : PatchProduct → Checked
unfolding validate_required_string validate_optional_string
validate_patch p =
    if is_none p.display_name && is_none p.description && is_none p.status
    then err invalid_product
    else and_then (if_some p.display_name validate_required_string)
        λ _. if_some p.description λ description. if_some description validate_optional_string

abbrev pub scopes_or_error : List ApiScope → Result (List ApiScope) ProductError
scopes_or_error [] = err invalid_product_token
scopes_or_error (s ∷ ss) = ok (s ∷ ss)

unfoldable pub normalize_scopes : List ApiScope → Result (List ApiScope) ProductError
normalize_scopes scopes = scopes_or_error (btree_set scope_rank scopes)

-- `CreateProductToken::validate`
unfoldable pub validate_token : CreateProductToken → Checked
unfolding validate_required_string normalize_scopes
validate_token t =
    and_then (validate_required_string t.label) λ _. and_then (normalize_scopes t.scopes) λ _. ok tt
