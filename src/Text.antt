-- ===== src/Text.antt =====
-- The text operations that the daemon uses: `str::trim().is_empty()`, the regexes of ids and names,
-- and `format!` of an unsigned number.
pub mod Decimal
pub mod Names
use Prim.Native.Char.{code}
use Prim.Native.String.{◌++◌ as concat}
use mathlib.Core.Option.{some-injective}
use text.Mathlib.TextEquality.{Char-path}
use text.Mathlib.TextLemmas.{nil-append, cons-append}
use opendaemon.Prelude.{
  Bool-cases, inl, inr, ◌⊎◌, ◌≢◌, str_eq, eq_iff, ap₂, ◌∙◌, sym, arith, Option, some, none,
  if◌then◌else◌, ℕ, zero, suc, String, Bool, true, ◌&&◌, ◌||◌, leb, ◌==◌, ◌≡◌, refl, false,
}

-- `char::is_whitespace`: the code points with Unicode's White_Space property
unfoldable pub is_whitespace : ℕ → Bool
is_whitespace c =
    (leb 9 c && leb c 13)
    || c == 32
    || c == 0x85
    || c == 0xa0
    || c == 0x1680
    || (leb 0x2000 c && leb c 0x200a)
    || c == 0x2028
    || c == 0x2029
    || c == 0x202f
    || c == 0x205f
    || c == 0x3000

-- `value.trim().is_empty()`: nothing is left when white space is cut off at both ends
unfoldable pub is_blank : String → Bool
unfolding is_whitespace
is_blank String.[] = true
is_blank (String.◌∷◌ c s) = is_whitespace (code c) && is_blank s

is_blank_tests : (is_blank " \t" ≡ true) × (is_blank "" ≡ true) × (is_blank " a " ≡ false)
unfolding is_blank
is_blank_tests = (refl, refl, refl)

-- `value.contains('\0')`
unfoldable pub contains_nul : String → Bool
contains_nul String.[] = false
contains_nul (String.◌∷◌ c s) = code c == 0 || contains_nul s

abbrev is_ascii_letter : ℕ → Bool
is_ascii_letter c = (leb 65 c && leb c 90) || (leb 97 c && leb c 122)

abbrev is_ascii_digit : ℕ → Bool
is_ascii_digit c = leb 48 c && leb c 57

-- `[a-zA-Z0-9]`, `[a-zA-Z0-9._-]`, `[A-Za-z_]` and `[A-Za-z0-9_]`
abbrev is_id_start : ℕ → Bool
is_id_start c = is_ascii_letter c || is_ascii_digit c

abbrev is_id_char : ℕ → Bool
is_id_char c = is_id_start c || c == 46 || c == 95 || c == 45

abbrev is_env_start : ℕ → Bool
is_env_start c = is_ascii_letter c || c == 95

abbrev is_env_char : ℕ → Bool
is_env_char c = is_env_start c || is_ascii_digit c

-- `^[…]*$`, and `^[…]{0,n}$`
abbrev all_chars : (ℕ → Bool) → String → Bool
all_chars p String.[] = true
all_chars p (String.◌∷◌ c s) = p (code c) && all_chars p s

abbrev all_chars_up_to : ℕ → (ℕ → Bool) → String → Bool
all_chars_up_to n p String.[] = true
all_chars_up_to zero p (String.◌∷◌ c s) = false
all_chars_up_to (suc n) p (String.◌∷◌ c s) = p (code c) && all_chars_up_to n p s

-- `^[a-zA-Z0-9][a-zA-Z0-9._-]{0,127}$`, the ids of products and agents
unfoldable pub is_id : String → Bool
is_id String.[] = false
is_id (String.◌∷◌ c s) = is_id_start (code c) && all_chars_up_to 127 is_id_char s

-- `^[A-Za-z_][A-Za-z0-9_]*$`, the name of an environment variable
unfoldable pub is_env_key : String → Bool
is_env_key String.[] = false
is_env_key (String.◌∷◌ c s) = is_env_start (code c) && all_chars is_env_char s

text_tests :
    (is_id "opendaemon.cli" ≡ true)
    × (is_id ".hidden" ≡ false)
    × (is_id "a b" ≡ false)
    × (is_env_key "_A1" ≡ true)
    × (is_env_key "1A" ≡ false)
    × (contains_nul "a" ≡ false)
unfolding is_id is_env_key contains_nul
text_tests = (refl, refl, refl, refl, refl, refl)

-- `value.strip_prefix(prefix)`
abbrev pub strip_prefix : String → String → Option String
strip_prefix String.[] s = some s
strip_prefix (String.◌∷◌ c p) String.[] = none
strip_prefix (String.◌∷◌ c p) (String.◌∷◌ d s) =
    let rest = strip_prefix p s in if code c == code d then rest else none

pub strip_prefix_lem : (p s t : String) → strip_prefix p s ≡ some t → s ≡ concat p t
strip_prefix_lem String.[] s t h = some-injective s t h ∙ sym (nil-append t)
strip_prefix_lem (String.◌∷◌ c p) String.[] t h = absurd (cc)
strip_prefix_lem (String.◌∷◌ c p) (String.◌∷◌ d s) t h = elim (Bool-cases (code c == code d)) [
  | inl e ↦
      ap₂ String.◌∷◌ (sym (Char-path c d (ground (arith, e))))
        (strip_prefix_lem p s t (ground (arith, e)))
      ∙ sym (cons-append c p t)
  | inr e ↦ absurd (ground (arith, e))
]

-- `value.trim()`
abbrev pub trim_end : String → String
trim_end String.[] = String.[]
trim_end (String.◌∷◌ c s) =
    let rest = trim_end s in
    if is_whitespace (code c) && is_blank s then String.[] else String.◌∷◌ c rest

abbrev pub trim_start : String → String
trim_start String.[] = String.[]
trim_start (String.◌∷◌ c s) =
    let rest = trim_start s in if is_whitespace (code c) then rest else String.◌∷◌ c s

unfoldable pub trim : String → String
unfolding is_whitespace is_blank
trim s = trim_end (trim_start s)

trim_tests : (trim " a b " ≡ "a b") × (trim "  " ≡ "")
unfolding trim
trim_tests = (refl, refl)

-- `Path::new(text).is_absolute()` on Unix, `text.starts_with('\\')`, and whether the second byte is
-- a colon
abbrev pub begins_with : ℕ → String → Bool
begins_with n String.[] = false
begins_with n (String.◌∷◌ c s) = code c == n

abbrev pub has_drive : String → Bool
has_drive String.[] = false
has_drive (String.◌∷◌ c s) = leb (code c) 127 && begins_with 58 s

-- two texts are the same or not
pub String-cases : (s t : String) → (s ≡ t) ⊎ (s ≢ t)
String-cases s t = elim (Bool-cases (str_eq s t)) [
  | inl e ↦ inl ((eq_iff s t).0 e)
  | inr e ↦ inr (λ same. grind (arith, e, (eq_iff s t).1 same))
]

-- a text that is the one is not the other
pub str_eq_other : (s t u : String) → t ≢ u → str_eq s u ≡ true → str_eq s t ≡ false
str_eq_other s t u differs h = elim (Bool-cases (str_eq s t)) [
  | inl e ↦ absurd (differs (sym ((eq_iff s t).0 e) ∙ (eq_iff s u).0 h))
  | inr e ↦ e
]
