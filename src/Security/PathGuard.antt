-- ===== src/Security/PathGuard.antt =====
-- security/path_guard.rs: which paths lie within a grant. The file system is an argument; a path is
-- its text.
use opendaemon.Prelude.{
  String, Bool, true, not, ◌≡◌, refl, List, Option, none, some, any, if◌then◌else◌, Result, ok, err,
  and_then, and_then-eq-ok, arith, str_eq,
}
use opendaemon.Agent.Validate.{is_empty_text}

pub data PathGuardError : Type 0 where
  invalid_directory_path path_not_directory path_outside_grant symlink_escape : PathGuardError

unfoldable pub code : PathGuardError → String
code invalid_directory_path = "invalid_directory_path"
code path_not_directory = "path_not_directory"
code path_outside_grant = "path_outside_grant"
code symlink_escape = "symlink_escape"

unfoldable pub message : PathGuardError → String
message invalid_directory_path = "invalid directory path"
message path_not_directory = "path is not a directory"
message path_outside_grant = "path is outside the directory grant"
message symlink_escape = "path escapes the directory grant through a symlink"

-- `FromStr`
unfoldable pub from_str : String → Option PathGuardError
from_str code =
    if str_eq code "invalid_directory_path"
    then some invalid_directory_path
    else if str_eq code "path_not_directory"
    then some path_not_directory
    else if str_eq code "path_outside_grant"
    then some path_outside_grant
    else if str_eq code "symlink_escape"
    then some symlink_escape
    else none

-- Reading the code of an error gives that error back.
pub path_error_round_trip : (e : PathGuardError) → from_str (code e) ≡ some e
unfolding from_str code
path_error_round_trip invalid_directory_path = refl
path_error_round_trip path_not_directory = refl
path_error_round_trip path_outside_grant = refl
path_error_round_trip symlink_escape = refl

-- `canonicalize` (none where it fails), `is_dir`, `exists`, `is_absolute`, `join`, `starts_with`,
-- whether `symlink_metadata` says that a path is a symlink, and the paths that `components` adds up to
pub record FileSystem : Type 0 where
  pub canonicalize : String → Option String
  pub is_dir : String → Bool
  pub exists : String → Bool
  pub is_absolute : String → Bool
  pub join : String → String → String
  pub starts_with : String → String → Bool
  pub is_symlink : String → Bool
  pub prefixes : String → List String

module _ (fs : FileSystem) where
  abbrev pub is_directory : Option String → Result String PathGuardError
  is_directory none = err invalid_directory_path
  is_directory (some canonical) =
      if not (fs.is_dir canonical) then err path_not_directory else ok canonical

  unfoldable pub canonicalize_grant_path : String → Result String PathGuardError
  canonicalize_grant_path path =
      if is_empty_text path then err invalid_directory_path else is_directory (fs.canonicalize path)

  abbrev pub path_contains_symlink : String → Bool
  path_contains_symlink path = any fs.is_symlink (fs.prefixes path)

  abbrev pub resolve : String → String → String
  resolve root candidate = if fs.is_absolute candidate then candidate else fs.join root candidate

  abbrev pub within : String → String → Option String → Result String PathGuardError
  within root resolved none = err invalid_directory_path
  within root resolved (some canonical) =
      if fs.starts_with canonical root
      then ok canonical
      else if path_contains_symlink resolved
      then err symlink_escape
      else err path_outside_grant

  unfoldable pub ensure_child_path_within_grant : String → String → Result String PathGuardError
  unfolding canonicalize_grant_path
  ensure_child_path_within_grant grant_root candidate =
      and_then (canonicalize_grant_path grant_root) λ root.
        if is_empty_text candidate
        then err invalid_directory_path
        else within root (resolve root candidate) (fs.canonicalize (resolve root candidate))

  canonicalize-eq-ok :
      (path root : String)
      → canonicalize_grant_path path ≡ ok root
      → (fs.canonicalize path ≡ some root) × (fs.is_dir root ≡ true)
  unfolding canonicalize_grant_path
  canonicalize-eq-ok path root h = directory (fs.canonicalize path) (ground (arith, h))
    where
      directory :
          (o : Option String) → is_directory o ≡ ok root → (o ≡ some root) × (fs.is_dir root ≡ true)
      directory none q = absurd (cc)
      directory (some c) q = ground (arith, q)

  -- A path that is let through is the canonical path of the candidate, read from the grant's root
  -- where it is relative, and lies within that root, which is a canonical path of a directory.
  pub ensure_child_path_lem :
      (grant_root candidate path : String)
      → ensure_child_path_within_grant grant_root candidate ≡ ok path
      → (root : String) × (fs.canonicalize grant_root ≡ some root)
        × (fs.is_dir root ≡ true)
        × (fs.canonicalize (resolve root candidate) ≡ some path)
        × (fs.starts_with path root ≡ true)
  unfolding ensure_child_path_within_grant
  ensure_child_path_lem grant_root candidate path h =
      let (root, found, rest) = and_then-eq-ok (canonicalize_grant_path grant_root) _ h in
      let (canonical, directory) = canonicalize-eq-ok grant_root root found in
      let (c, inside) =
        let_through root (fs.canonicalize (resolve root candidate)) (ground (arith, rest)) in
      (root, canonical, directory, c, inside)
    where
      let_through :
          (root : String) (o : Option String)
          → within root (resolve root candidate) o ≡ ok path
          → (o ≡ some path) × (fs.starts_with path root ≡ true)
      let_through root none q = absurd (cc)
      let_through root (some c) q = ground (arith, q)
