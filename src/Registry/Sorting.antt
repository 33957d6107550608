-- ===== src/Registry/Sorting.antt =====
-- What a loaded registry is: the sorting of its providers keeps what the checks found.
use Prim.Native.String.{compare}
use text.Mathlib.Text.{is_lt}
use opendaemon.Prelude.{
  String, ◌≡◌, ◌≢◌, refl, sym, subst, ◌⊎◌, Option-cases, List, [], ◌∷◌, Option, none, some, All,
  All_of_find, find_passes, ok, str_eq, eq_iff, Bool-cases, inl, inr, arith,
}
use opendaemon.Registry.{ProviderEntry, ProviderRegistry, get}
use opendaemon.Registry.Validate.{validate_registry_entries, id_errors}
use opendaemon.Registry.Checks.{append_iff}
use opendaemon.Registry.Load.{
  DirEntry, Loaded, Sound, NoTwo, load_entries, load_registry_from_dir, checked, finish,
  insert_entry, sort_entries, load_entries_sound, id_errors-nothing,
}

module _ (P : ProviderEntry → Type 0) where
  All-insert_entry :
      (e : ProviderEntry) (es : List ProviderEntry) → P e → All P es → All P (insert_entry e es)
  All-insert_entry e [] h k = (h, tt)
  All-insert_entry e (f ∷ fs) h k =
      elim (Bool-cases (is_lt (compare f.manifest.id e.manifest.id))) [
        | inl q ↦ rw q (k.0, All-insert_entry e fs h k.1)
        | inr q ↦ rw q (h, k)
      ]

  All-sort_entries : (es : List ProviderEntry) → All P es → All P (sort_entries es)
  unfolding sort_entries
  All-sort_entries [] h = tt
  All-sort_entries (e ∷ es) h = All-insert_entry e (sort_entries es) h.0 (All-sort_entries es h.1)

NoTwo-insert_entry :
    (e : ProviderEntry) (es : List ProviderEntry)
    → All (λ f. f.manifest.id ≢ e.manifest.id) es
    → NoTwo es
    → NoTwo (insert_entry e es)
NoTwo-insert_entry e [] h k = (tt, tt)
NoTwo-insert_entry e (f ∷ fs) h k =
    elim (Bool-cases (is_lt (compare f.manifest.id e.manifest.id))) [
      | inl q ↦ rw q (
        All-insert_entry (λ g. g.manifest.id ≢ f.manifest.id) e fs (λ r. h.0 (sym r)) k.0,
        NoTwo-insert_entry e fs h.1 k.1,
      )
      | inr q ↦ rw q (h, k)
    ]

NoTwo-sort_entries : (es : List ProviderEntry) → NoTwo es → NoTwo (sort_entries es)
unfolding sort_entries
NoTwo-sort_entries [] h = tt
NoTwo-sort_entries (e ∷ es) h =
    NoTwo-insert_entry e (sort_entries es)
      (All-sort_entries (λ f. f.manifest.id ≢ e.manifest.id) es h.0) (NoTwo-sort_entries es h.1)

-- the outcome of the last steps
finish-eq-ok :
    (entries : List ProviderEntry) (errors : List String) (r : ProviderRegistry)
    → finish entries errors ≡ ok r
    → (errors ≡ []) × (sort_entries entries ≡ r.providers)
finish-eq-ok entries [] r h = (refl, ground arith)
finish-eq-ok entries (e ∷ es) r h = absurd (cc)

-- In a registry that loads, every manifest is what it has to be and has the name of its directory as
-- its id, no two providers have one id, and the provider that is answered for an id has that id.
pub load_registry_lem :
    (entries : Option (List DirEntry)) (r : ProviderRegistry)
    → load_registry_from_dir entries ≡ ok r
    → All Sound r.providers
      × NoTwo r.providers
      × ((id : String)
          → (get r id ≡ none)
            ⊎ ((e : ProviderEntry) × (get r id ≡ some e) × (e.manifest.id ≡ id) × Sound e))
unfolding load_registry_from_dir validate_registry_entries get
load_registry_lem none r h = absurd (cc)
load_registry_lem (some entries) r h = loaded (load_entries entries start) refl h
  where
    start : Loaded
    start = record { errors = []; providers = [] }

    answer :
        All Sound r.providers
        → (id : String)
        → (get r id ≡ none)
          ⊎ ((e : ProviderEntry) × (get r id ≡ some e) × (e.manifest.id ≡ id) × Sound e)
    answer sound id = elim (Option-cases (get r id)) [
      | inl missing ↦ inl missing
      | inr (e, found) ↦ inr (
        e,
        found,
        (eq_iff e.manifest.id id).0
            (find_passes (λ f. str_eq f.manifest.id id) r.providers e found),
        All_of_find Sound (λ f. str_eq f.manifest.id id) r.providers e sound found,
      )
    ]

    loaded :
        (o : Option Loaded)
        → load_entries entries start ≡ o
        → checked o ≡ ok r
        → All Sound r.providers
          × NoTwo r.providers
          × ((id : String)
              → (get r id ≡ none)
                ⊎ ((e : ProviderEntry) × (get r id ≡ some e) × (e.manifest.id ≡ id) × Sound e))
    loaded none e q = absurd (cc)
    loaded (some l) e q =
        let (clean, sorted) = finish-eq-ok l.providers _ r q in
        let (no_errors, no_ids) = (append_iff l.errors (id_errors [] l.providers)).0 clean in
        let sound = subst (All Sound) sorted (
          All-sort_entries Sound l.providers
            (load_entries_sound entries start l e (λ _. tt) no_errors)) in
        (
          sound,
          subst NoTwo sorted
              (NoTwo-sort_entries l.providers (id_errors-nothing [] l.providers no_ids).0),
          answer sound,
        )
