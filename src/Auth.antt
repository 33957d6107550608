-- ===== src/Auth.antt =====
-- api/auth.rs: who a request comes from. The header is `none` where the request has none, and
-- `some none` where `to_str` refuses its bytes.
pub mod Sessions
use Prim.Native.String.{◌++◌ as concat}
use opendaemon.Prelude.{
  ℕ, String, Bool, true, false, not, List, [], ◌∷◌, Option, none, some, str_eq, if◌then◌else◌,
  Result, ok, err, and_then,
}
use opendaemon.Text.{strip_prefix}
use opendaemon.Product.{ApiScope, AuthenticatedProductToken, has_scope}
use opendaemon.Store.World.{World}
use opendaemon.Store.Exec.{Exec, pure, raise, lift, ◌>>=◌}
use opendaemon.Store.Products.{ProductStoreError}
use opendaemon.Store.Products.Tokens.{Crypto, authenticate_product_token}

pub record ProductAuthContext : Type 0 where
  pub token_id : String
  pub product_id : String
  pub scopes : List ApiScope

pub data AuthContext : Type 0 where
  bootstrap : AuthContext
  of_product : ProductAuthContext → AuthContext

pub data AuthError : Type 0 where
  missing_authentication invalid_token bootstrap_token_required : AuthError
  product_token_required insufficient_scope product_scope_mismatch product_disabled : AuthError

unfoldable pub code : AuthError → String
code missing_authentication = "missing_authentication"
code invalid_token = "invalid_token"
code bootstrap_token_required = "bootstrap_token_required"
code product_token_required = "product_token_required"
code insufficient_scope = "insufficient_scope"
code product_scope_mismatch = "product_scope_mismatch"
code product_disabled = "product_disabled"

unfoldable pub message : AuthError → String
message missing_authentication = "missing authentication"
message invalid_token = "invalid token"
message bootstrap_token_required = "bootstrap token required"
message product_token_required = "product token required"
message insufficient_scope = "insufficient scope"
message product_scope_mismatch = "product scope mismatch"
message product_disabled = "product disabled"

-- `StatusCode::UNAUTHORIZED` and `StatusCode::FORBIDDEN`
unfoldable pub status : AuthError → ℕ
status missing_authentication = 401
status invalid_token = 401
status bootstrap_token_required = 401
status product_token_required = 401
status product_disabled = 401
status insufficient_scope = 403
status product_scope_mismatch = 403

-- how a request can end without an answer of its handler: an error, or a panic on the way
pub data Failure : Type 0 where
  rejected : AuthError → Failure
  panic : Failure

abbrev pub Checked : Type 0
Checked = Result (Unit {0}) AuthError

-- `ProductAuth::require_scope`, `require_scopes` and `ensure_product`
unfoldable pub require_scope : ProductAuthContext → ApiScope → Checked
require_scope c scope = if has_scope c.scopes scope then ok tt else err insufficient_scope

abbrev pub has_all : List ApiScope → List ApiScope → Bool
has_all held [] = true
has_all held (s ∷ ss) = let rest = has_all held ss in if has_scope held s then rest else false

unfoldable pub require_scopes : ProductAuthContext → List ApiScope → Checked
require_scopes c scopes = if has_all c.scopes scopes then ok tt else err insufficient_scope

unfoldable pub ensure_product : ProductAuthContext → String → Checked
ensure_product c product_id =
    if str_eq c.product_id product_id then ok tt else err product_scope_mismatch

-- `AnyAuth::require_scope`, `require_scopes` and `product_context`
unfoldable pub require_scope_any : AuthContext → ApiScope → Checked
unfolding require_scope
require_scope_any bootstrap scope = ok tt
require_scope_any (of_product c) scope = require_scope c scope

unfoldable pub require_scopes_any : AuthContext → List ApiScope → Checked
unfolding require_scopes
require_scopes_any bootstrap scopes = ok tt
require_scopes_any (of_product c) scopes = require_scopes c scopes

unfoldable pub product_context : AuthContext → Option ProductAuthContext
product_context bootstrap = none
product_context (of_product c) = some c

abbrev pub bearer : String
bearer = "Bearer "

-- `.filter(|token| !token.is_empty()).ok_or(InvalidToken)`
abbrev pub nonempty : Option String → Result String AuthError
nonempty none = err invalid_token
nonempty (some String.[]) = err invalid_token
nonempty (some (String.◌∷◌ c s)) = ok (String.◌∷◌ c s)

unfoldable pub bearer_token : Option (Option String) → Result String AuthError
bearer_token none = err missing_authentication
bearer_token (some none) = err invalid_token
bearer_token (some (some value)) = nonempty (strip_prefix bearer value)

unfoldable pub is_bootstrap_token : Option String → String → Bool
is_bootstrap_token none token = false
is_bootstrap_token (some value) token = str_eq value token

abbrev pub context : AuthenticatedProductToken → ProductAuthContext
context a = record { token_id = a.token_id; product_id = a.product_id; scopes = a.scopes }

-- the `match` on what the product store answers
abbrev pub answer :
    Result (Option AuthenticatedProductToken) ProductStoreError → Result AuthContext Failure
answer (ok (some a)) = ok (of_product (context a))
answer (ok none) = err (rejected invalid_token)
answer (err ProductStoreError.product_disabled) = err (rejected product_disabled)
answer (err (ProductStoreError.product e)) = err (rejected invalid_token)
answer (err ProductStoreError.store) = err (rejected invalid_token)
answer (err ProductStoreError.panic) = err panic

unfoldable pub lookup_product : Crypto → String → Exec Failure AuthContext
lookup_product crypto token w =
    let (r, w') = authenticate_product_token crypto token w in (answer r, w')

abbrev pub rejecting : {A : Type 0} → Result A AuthError → Result A Failure
rejecting (ok a) = ok a
rejecting (err e) = err (rejected e)

-- `authenticate_request`, whose arguments are the bootstrap token of the configuration and the
-- `Authorization` header; it is also the extractor `AnyAuth`
unfoldable pub authenticate_request :
    Crypto → Option String → Option (Option String) → Exec Failure AuthContext
unfolding ◌>>=◌ lookup_product
authenticate_request crypto bootstrap_token header = do
  token ← lift (rejecting (bearer_token header))
  if is_bootstrap_token bootstrap_token token then pure bootstrap else lookup_product crypto token

-- the extractors `BootstrapAuth` and `ProductAuth`
abbrev pub only_bootstrap : AuthContext → Result (Unit {0}) Failure
only_bootstrap bootstrap = ok tt
only_bootstrap (of_product c) = err (rejected bootstrap_token_required)

abbrev pub only_product : AuthContext → Result ProductAuthContext Failure
only_product bootstrap = err (rejected product_token_required)
only_product (of_product c) = ok c

unfoldable pub bootstrap_auth :
    Crypto → Option String → Option (Option String) → Exec Failure (Unit {0})
bootstrap_auth crypto bootstrap_token header = do
  c ← authenticate_request crypto bootstrap_token header
  lift (only_bootstrap c)

unfoldable pub product_auth :
    Crypto → Option String → Option (Option String) → Exec Failure ProductAuthContext
product_auth crypto bootstrap_token header = do
  c ← authenticate_request crypto bootstrap_token header
  lift (only_product c)
