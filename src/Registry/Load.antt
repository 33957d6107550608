-- ===== src/Registry/Load.antt =====
-- registry/mod.rs: the loading of a directory of providers. What the file system answers is an
-- argument: for each entry of the directory, its name, whether it is a directory itself, what its
-- manifest reads as, and which files it holds. An error's text is the list of its parts.
use Prim.Native.String.{◌++◌ as concat, compare}
use text.Mathlib.Text.{is_lt}
use mathlib.Core.Option.{some-injective}
use opendaemon.Prelude.{
  String, Bool, true, false, ◌≡◌, ◌≢◌, refl, sym, inl, inr, List, [], ◌∷◌, ◌++◌, Option, none, some,
  All, Result, ok, err, if◌then◌else◌, str_eq, eq_iff, arith, subst, All-append, Bool-cases,
}
use opendaemon.Registry.{ProviderManifest, ProviderEntry, ProviderRegistry}
use opendaemon.Registry.Validate.{
  validate_manifest_entry, validate_registry_entries, entry_parts, id_errors, duplicate_id,
  last_path,
}
use opendaemon.Registry.Checks.{all_of_iff, append_iff, push_if-not_iff}
use opendaemon.Registry.Manifests.{IsManifest, validate_manifest_fields_iff}

-- an entry of the directory; `none` where `file_type` fails
pub record DirEntry : Type 0 where
  pub name : String
  pub path : String
  pub is_dir : Option Bool
  pub manifest : Result ProviderManifest String
  pub is_file : String → Bool

-- the loop's two lists
pub record Loaded : Type 0 where
  pub errors : List String
  pub providers : List ProviderEntry

abbrev pub entry_of : DirEntry → ProviderManifest → ProviderEntry
entry_of e m = record {
  directory_name = e.name;
  manifest_path = concat e.path "/manifest.json";
  manifest = m;
}

-- what one directory adds
abbrev pub load_manifest : DirEntry → Result ProviderManifest String → Loaded → Loaded
load_manifest e (ok m) l = record {
  errors = l.errors ++ validate_manifest_entry e.name e.path e.is_file m;
  providers = l.providers ++ entry_of e m ∷ [];
}
load_manifest e (err x) l = record l { errors = l.errors ++ x ∷ [] }

-- the loop; it returns at once where an entry cannot be inspected
abbrev pub load_next : Option Bool → DirEntry → Loaded → Option Loaded
load_next none e l = none
load_next (some false) e l = some l
load_next (some true) e l = some (load_manifest e e.manifest l)

abbrev pub and_load : Option Loaded → (Loaded → Option Loaded) → Option Loaded
and_load none f = none
and_load (some l) f = f l

unfoldable pub load_entries : List DirEntry → Loaded → Option Loaded
load_entries [] l = some l
load_entries (e ∷ es) l = and_load (load_next e.is_dir e l) λ l'. load_entries es l'

-- `providers.sort_by(|left, right| left.manifest.id.cmp(&right.manifest.id))`, which is stable
abbrev pub insert_entry : ProviderEntry → List ProviderEntry → List ProviderEntry
insert_entry e [] = e ∷ []
insert_entry e (f ∷ fs) =
    let rest = insert_entry e fs in
    if is_lt (compare f.manifest.id e.manifest.id) then f ∷ rest else e ∷ f ∷ fs

unfoldable pub sort_entries : List ProviderEntry → List ProviderEntry
sort_entries [] = []
sort_entries (e ∷ es) = insert_entry e (sort_entries es)

abbrev pub finish : List ProviderEntry → List String → Result ProviderRegistry (List String)
finish entries [] = ok (record { providers = sort_entries entries })
finish entries (e ∷ es) = err (e ∷ es)

abbrev pub checked : Option Loaded → Result ProviderRegistry (List String)
checked none = err ("failed to inspect an entry" ∷ [])
checked (some l) = finish l.providers (l.errors ++ validate_registry_entries l.providers)

-- `load_registry_from_dir`, of the entries that `read_dir` gives, or none where it fails
unfoldable pub load_registry_from_dir :
    Option (List DirEntry) → Result ProviderRegistry (List String)
load_registry_from_dir none = err ("failed to read the directory" ∷ [])
load_registry_from_dir (some entries) =
    checked (load_entries entries (record { errors = []; providers = [] }))

-- what a provider of a loaded registry is
abbrev pub Sound : ProviderEntry → Type 0
Sound e = IsManifest e.manifest × (e.manifest.id ≡ e.directory_name)

-- no two providers have one id
abbrev pub NoTwo : List ProviderEntry → Type 0
NoTwo [] = Unit
NoTwo (e ∷ es) = All (λ f. f.manifest.id ≢ e.manifest.id) es × NoTwo es

entry-Sound :
    (e : DirEntry) (m : ProviderManifest)
    → validate_manifest_entry e.name e.path e.is_file m ≡ []
    → Sound (entry_of e m)
unfolding validate_manifest_entry
entry-Sound e m h =
    let parts = (all_of_iff (entry_parts e.name e.path e.is_file m)).0 h in
    (
      (validate_manifest_fields_iff m).0 parts.1.1.1.0,
      (eq_iff m.id e.name).0 ((push_if-not_iff _ _).0 parts.0),
    )

-- the state of the loop: where there is no error, the providers are sound
abbrev pub SoundSoFar : Loaded → Type 0
SoundSoFar l = l.errors ≡ [] → All Sound l.providers

load_next_sound :
    (o : Option Bool) (e : DirEntry) (l l' : Loaded)
    → load_next o e l ≡ some l'
    → SoundSoFar l
    → SoundSoFar l'
load_next_sound none e l l' h sound = absurd (cc)
load_next_sound (some false) e l l' h sound = subst SoundSoFar (some-injective l l' h) sound
load_next_sound (some true) e l l' h sound =
    subst SoundSoFar (some-injective _ l' h) (with_manifest e.manifest)
  where
    with_manifest : (r : Result ProviderManifest String) → SoundSoFar (load_manifest e r l)
    with_manifest (ok m) none_wrong =
        let (before, now) = (append_iff l.errors _).0 none_wrong in
        All-append Sound l.providers (entry_of e m ∷ []) (sound before) (entry-Sound e m now, tt)
    with_manifest (err x) none_wrong =
        let (before, now) = (append_iff l.errors (x ∷ [])).0 none_wrong in absurd (cc)

and_load-eq-some :
    (o : Option Loaded) (f : Loaded → Option Loaded) (l' : Loaded)
    → and_load o f ≡ some l'
    → (l : Loaded) × (o ≡ some l) × (f l ≡ some l')
and_load-eq-some none f l' h = absurd (cc)
and_load-eq-some (some l) f l' h = (l, refl, h)

pub load_entries_sound :
    (es : List DirEntry) (l l' : Loaded)
    → load_entries es l ≡ some l'
    → SoundSoFar l
    → SoundSoFar l'
unfolding load_entries
load_entries_sound [] l l' h sound = subst SoundSoFar (some-injective l l' h) sound
load_entries_sound (e ∷ es) l l' h sound =
    let (m, one, rest) = and_load-eq-some (load_next e.is_dir e l) (load_entries es) l' h in
    load_entries_sound es m l' rest (load_next_sound e.is_dir e l m one sound)

last_path-eq-none :
    (id : String) (es : List ProviderEntry)
    → last_path id es ≡ none
    → All (λ e. e.manifest.id ≢ id) es
last_path-eq-none id [] h = tt
last_path-eq-none id (e ∷ es) h = elim (Bool-cases (str_eq e.manifest.id id)) [
  | inl same ↦ absurd (ground (arith, same))
  | inr other ↦ (
    (λ q. ground (arith, other, (eq_iff e.manifest.id id).1 q)),
    last_path-eq-none id es (ground (arith, other)),
  )
]

duplicate_id-nothing : (e : ProviderEntry) (o : Option String) → duplicate_id e o ≡ [] → o ≡ none
duplicate_id-nothing e none h = refl
duplicate_id-nothing e (some path) h = absurd (cc)

pub id_errors-nothing :
    (seen es : List ProviderEntry)
    → id_errors seen es ≡ []
    → NoTwo es × All (λ f. All (λ s. s.manifest.id ≢ f.manifest.id) seen) es
id_errors-nothing seen [] h = (tt, tt)
id_errors-nothing seen (e ∷ es) h =
    let (a, rest) = (append_iff (duplicate_id e (last_path e.manifest.id seen)) _).0 h in
    let (two, new) = id_errors-nothing (e ∷ seen) es rest in
    (
      (later es new, two),
      (last_path-eq-none e.manifest.id seen (duplicate_id-nothing e _ a), earlier es new),
    )
  where
    later :
        (fs : List ProviderEntry)
        → All (λ f. All (λ s. s.manifest.id ≢ f.manifest.id) (e ∷ seen)) fs
        → All (λ f. f.manifest.id ≢ e.manifest.id) fs
    later [] k = tt
    later (f ∷ fs) k = ((λ q. k.0.0 (sym q)), later fs k.1)

    earlier :
        (fs : List ProviderEntry)
        → All (λ f. All (λ s. s.manifest.id ≢ f.manifest.id) (e ∷ seen)) fs
        → All (λ f. All (λ s. s.manifest.id ≢ f.manifest.id) seen) fs
    earlier [] k = tt
    earlier (f ∷ fs) k = (k.0.1, earlier fs k.1)
