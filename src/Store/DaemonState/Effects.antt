-- ===== src/Store/DaemonState/Effects.antt =====
-- What a registration leaves in the table, and what is read back.
use opendaemon.Prelude.{
  String, true, false, ◌≡◌, refl, sym, ap, ◌∙◌, ◌⊎◌, inl, inr, List, [], ◌∷◌, ◌++◌, none, some, any,
  find, update_where, eq_refl, eq_iff, Bool-cases, Result, ok, err, arith, if◌then◌else◌,
}
use mathlib.Core.Option.{some-injective}
use opendaemon.ControlPlane.{
  DaemonConnectionStatus, DaemonRegistrationRecord, DaemonStateRow, online, offline, connecting,
}
use opendaemon.Store.World.{World, Db}
use opendaemon.Store.Exec.{call, statement}
use opendaemon.Store.Logic.{
  Reads, Ensures, Reads-then, Reads-bind, Reads-call, Reads-query, Reads-required, Reads-lift,
  Reads-weaken, Ensures-then, Ensures-write, Ensures-weaken,
}
use opendaemon.Store.Logic.Writes.{Ensures-of_cases}
use opendaemon.Store.DaemonState.{
  DaemonStateStoreError, not_found, store, serialize_status, deserialize_status, row_of,
  with_status, row_to_record, has_id, first, get, get_current, upsert, save_registration,
}

-- Reading the text of a status gives that status back.
pub status_round_trip :
    (s : DaemonConnectionStatus) → deserialize_status (serialize_status s) ≡ ok s
unfolding serialize_status deserialize_status
status_round_trip online = refl
status_round_trip offline = refl
status_round_trip connecting = refl
status_round_trip DaemonConnectionStatus.error = refl

-- Reading the row of a record gives that record back.
pub row_round_trip : (r : DaemonRegistrationRecord) → row_to_record (row_of r) ≡ ok r
unfolding row_of row_to_record
row_round_trip r = ap (with_status (row_of r)) (status_round_trip r.status)

pub Reads-get :
    (id : String)
    → Reads
        (λ d r.
          (row : DaemonStateRow) × (find (has_id id) d.daemon_state ≡ some row)
          × (row_to_record row ≡ ok r))
        (get id)
unfolding get
Reads-get id =
    Reads-weaken _ (λ d r h. let (row, e, (row', found, read)) = h in (row', sym e ∙ found, read))
      (Reads-then (call store) _ (Reads-call store) (
        Reads-bind _ _ (Reads-query store _)
          λ row. Reads-bind _ _ (Reads-required not_found row) λ r. Reads-lift (row_to_record r)))

pub Reads-get_current :
    Reads
      (λ d r.
        (row : DaemonStateRow) × (first d.daemon_state ≡ some row) × (row_to_record row ≡ ok r))
      get_current
unfolding get_current
Reads-get_current =
    Reads-weaken _ (λ d r h. let (row, e, (row', found, read)) = h in (row', sym e ∙ found, read))
      (Reads-then (call store) _ (Reads-call store) (
        Reads-bind _ _ (Reads-query store _)
          λ row. Reads-bind _ _ (Reads-required not_found row) λ r. Reads-lift (row_to_record r)))

module _ (r : DaemonStateRow) where
  find-update_all :
      (rs : List DaemonStateRow)
      → any (has_id r.daemon_id) rs ≡ true
      → find (has_id r.daemon_id) (update_where (has_id r.daemon_id) (λ old. r) rs) ≡ some r
  find-update_all [] h = absurd (cc)
  find-update_all (x ∷ xs) h = ground (arith, find-update_all xs, eq_refl r.daemon_id)

  find-append_new :
      (rs : List DaemonStateRow)
      → any (has_id r.daemon_id) rs ≡ false
      → find (has_id r.daemon_id) (rs ++ r ∷ []) ≡ some r
  find-append_new [] h = ground (arith, eq_refl r.daemon_id)
  find-append_new (x ∷ xs) h = ground (arith, find-append_new xs)

  -- the row that is written is the one that is found under its id
  pub find-upsert : (d : Db) → find (has_id r.daemon_id) (upsert r d).daemon_state ≡ some r
  unfolding upsert
  find-upsert d = elim (Bool-cases (any (has_id r.daemon_id) d.daemon_state)) [
    | inl e ↦ rw e (find-update_all d.daemon_state e)
    | inr e ↦ rw e (find-append_new d.daemon_state e)
  ]

  -- Writing a registration changes which one is current only where there was none, or where the
  -- current one has the id that is written: the registration of another daemon id stays current.
  pub current-upsert :
      (d : Db)
      → ((first d.daemon_state ≡ none) × (first (upsert r d).daemon_state ≡ some r))
        ⊎ ((old : DaemonStateRow) × (first d.daemon_state ≡ some old)
            × (((old.daemon_id ≡ r.daemon_id) × (first (upsert r d).daemon_state ≡ some r))
                ⊎ (first (upsert r d).daemon_state ≡ some old)))
  unfolding upsert
  current-upsert d = go d.daemon_state
    where
      go :
          (rs : List DaemonStateRow)
          → ((first rs ≡ none)
              × (first (
                    if any (has_id r.daemon_id) rs
                    then update_where (has_id r.daemon_id) (λ old. r) rs
                    else rs ++ r ∷ [])
                  ≡ some r))
            ⊎ ((old : DaemonStateRow) × (first rs ≡ some old)
                × (((old.daemon_id ≡ r.daemon_id)
                      × (first (
                            if any (has_id r.daemon_id) rs
                            then update_where (has_id r.daemon_id) (λ old. r) rs
                            else rs ++ r ∷ [])
                          ≡ some r))
                    ⊎ (first (
                          if any (has_id r.daemon_id) rs
                          then update_where (has_id r.daemon_id) (λ old. r) rs
                          else rs ++ r ∷ [])
                        ≡ some old)))
      go [] = inl (refl, refl)
      go (x ∷ xs) = inr (
        x,
        refl,
        elim (Bool-cases (has_id r.daemon_id x)) [
          | inl e ↦ inl ((eq_iff x.daemon_id r.daemon_id).0 e, ground (arith, e))
          | inr e ↦ inr (ground (arith, e))
        ],
      )

ok_injective :
    (a b : DaemonRegistrationRecord)
    → ◌≡◌ {A = Result DaemonRegistrationRecord DaemonStateStoreError} (ok a) (ok b)
    → a ≡ b
ok_injective a b q = cc

module _ (r : DaemonRegistrationRecord) where
  written_cases :
      (w : World)
      → ((e : DaemonStateStoreError) × ((statement store (upsert (row_of r)) w).0 ≡ err e)
          × ((statement store (upsert (row_of r)) w).1.db ≡ w.db))
        ⊎ (((statement store (upsert (row_of r)) w).0 ≡ ok tt)
            × ((statement store (upsert (row_of r)) w).1.db ≡ upsert (row_of r) w.db))
  unfolding statement
  written_cases w = ground arith

  -- `save_registration` writes the record to the row of its daemon id, a new one if there is none,
  -- and returns exactly the record that it was given; where it fails, nothing changed, or (the
  -- failure being in reading it back) the record was written.
  pub save_registration_effect :
      Ensures
        (λ _. Unit)
        (λ d s d'. (s ≡ r) × (d' ≡ upsert (row_of r) d))
        (λ d d'. d' ≡ upsert (row_of r) d)
        (save_registration r)
  unfolding save_registration row_of
  save_registration_effect =
      Ensures-weaken {Pre = λ _. Unit} _ (λ d q. q) (λ d s d' q h. read d s d' h.1 h.2)
        (λ d d' q h. h.1)
        (Ensures-then (call store) _ (Reads-call store) (
          Ensures-write (statement store (upsert (row_of r))) _
            (Ensures-of_cases {S = λ d _ d'. d' ≡ upsert (row_of r) d}
              (statement store (upsert (row_of r)))
              λ w. elim (written_cases w) [
                | inl failed ↦ inl failed
                | inr (e, rows) ↦ inr (tt, e, rows)
              ])
            λ _. Reads-get r.daemon_id))
    where
      read :
          (d : Db) (s : DaemonRegistrationRecord) (d' : Db)
          → d' ≡ upsert (row_of r) d
          → (row : DaemonStateRow) × (find (has_id r.daemon_id) d'.daemon_state ≡ some row)
            × (row_to_record row ≡ ok s)
          → (s ≡ r) × (d' ≡ upsert (row_of r) d)
      read d s d' e (row, found, back) =
          let same : row ≡ row_of r = some-injective _ _ (
            sym found
            ∙ ap (λ x. find (has_id r.daemon_id) x.daemon_state) e
            ∙ find-upsert (row_of r) d) in
          (ok_injective s r (sym back ∙ ap row_to_record same ∙ row_round_trip r), e)
