-- ===== src/Store/Logic/Writes.antt =====
-- Rules for operations that write: what one write, a transaction and parts in a row do to the tables.
use opendaemon.Prelude.{◌≡◌, refl, sym, subst, ◌⊎◌, inl, inr, Result, ok, err}
use opendaemon.Store.World.{World, Db}
use opendaemon.Store.Exec.{Exec, ◌>>=◌, continue, map_err, mapped, transaction, rolled_back}
use opendaemon.Store.Logic.{Ensures, Outcome}

-- the two ways a single write can end
module _ {E A : Type 0} {S : Db → A → Db → Type 0} where
  pub Ensures-of_cases :
      (m : Exec E A)
      → ((w : World)
          → ((e : E) × ((m w).0 ≡ err e) × ((m w).1.db ≡ w.db))
            ⊎ ((a : A) × ((m w).0 ≡ ok a) × S w.db a (m w).1.db))
      → Ensures (λ _. Unit) S (λ _ _. ⊥) m
  Ensures-of_cases m h = record { at = λ w p. go (m w).0 w.db (m w).1.db (h w) }
    where
      ok_injective : (a b : A) → ◌≡◌ {A = Result A E} (ok a) (ok b) → a ≡ b
      ok_injective a b q = cc

      go :
          (r : Result A E) (d d' : Db)
          → ((e : E) × (r ≡ err e) × (d' ≡ d)) ⊎ ((a : A) × (r ≡ ok a) × S d a d')
          → Outcome S (λ _ _. ⊥) d r d'
      go (ok a) d d' (inl (e, q, _)) = absurd (cc)
      go (ok a) d d' (inr (b, q, t)) = subst (λ x. S d x d') (sym (ok_injective a b q)) t
      go (err x) d d' (inl (e, q, s)) = inl s
      go (err x) d d' (inr (b, q, t)) = absurd (cc)

-- a transaction that fails changes nothing, whatever its body did before
module _ {E A : Type 0} {Pre : Db → Type 0} {S : Db → A → Db → Type 0} {T : Db → Db → Type 0} where
  pub Ensures-transaction :
      (m : Exec E A) → Ensures Pre S T m → Ensures Pre S (λ _ _. ⊥) (transaction m)
  unfolding transaction
  Ensures-transaction m h = record { at = λ w p. go (m w).0 (m w).1 w.db (h.at w p) }
    where
      go :
          (r : Result A E) (w : World) (d : Db)
          → Outcome S T d r w.db
          → Outcome S (λ _ _. ⊥) d (rolled_back d r w).0 (rolled_back d r w).1.db
      go (ok a) w d t = t
      go (err e) w d t = inl refl

-- a body of a transaction, of which nothing need be known where it fails
module _ {E A : Type 0} {S : Db → A → Db → Type 0} where
  pub Ensures-of_ok :
      (m : Exec E A)
      → ((w : World)
          → ((e : E) × ((m w).0 ≡ err e)) ⊎ ((a : A) × ((m w).0 ≡ ok a) × S w.db a (m w).1.db))
      → Ensures (λ _. Unit) S (λ _ _. Unit) m
  Ensures-of_ok m h = record { at = λ w p. go (m w).0 w.db (m w).1.db (h w) }
    where
      ok_injective : (a b : A) → ◌≡◌ {A = Result A E} (ok a) (ok b) → a ≡ b
      ok_injective a b q = cc

      go :
          (r : Result A E) (d d' : Db)
          → ((e : E) × (r ≡ err e)) ⊎ ((a : A) × (r ≡ ok a) × S d a d')
          → Outcome S (λ _ _. Unit) d r d'
      go (ok a) d d' (inl (e, q)) = absurd (cc)
      go (ok a) d d' (inr (b, q, t)) = subst (λ x. S d x d') (sym (ok_injective a b q)) t
      go (err x) d d' q = inr tt

-- two parts that write, one after the other
module _ {E A B : Type 0} {Pre : Db → Type 0} {S : Db → A → Db → Type 0} {T : Db → Db → Type 0}
    {R : A → Db → B → Db → Type 0} {U : A → Db → Db → Type 0} where
  pub Ensures-bind :
      (m : Exec E A) (f : A → Exec E B)
      → Ensures Pre S T m
      → ((a : A) → Ensures (λ _. Unit) (R a) (U a) (f a))
      → Ensures Pre
          (λ d b d''. (a : A) × (d' : Db) × S d a d' × R a d' b d'')
          (λ d d''. T d d'' ⊎ ((a : A) × (d' : Db) × S d a d' × ((d'' ≡ d') ⊎ U a d' d'')))
          (m >>= f)
  unfolding ◌>>=◌
  Ensures-bind m f hm hf = record { at = λ w p. go (m w).0 (m w).1 w.db (hm.at w p) }
    where
      Failed : Db → Db → Type 0
      Failed d d'' = T d d'' ⊎ ((a : A) × (d' : Db) × S d a d' × ((d'' ≡ d') ⊎ U a d' d''))

      next :
          (a : A) (r : Result B E) (d d' d'' : Db)
          → S d a d'
          → Outcome (R a) (U a) d' r d''
          → Outcome (λ d b d''. (a : A) × (d' : Db) × S d a d' × R a d' b d'') Failed d r d''
      next a (ok b) d d' d'' s o = (a, d', s, o)
      next a (err e) d d' d'' s o = inr (inr (a, d', s, o))

      go :
          (r : Result A E) (w : World) (d : Db)
          → Outcome S T d r w.db
          → Outcome
              (λ d b d''. (a : A) × (d' : Db) × S d a d' × R a d' b d'')
              Failed
              d
              (continue r f w).0
              (continue r f w).1.db
      go (ok a) w d s = next a (f a w).0 d w.db (f a w).1.db s ((hf a).at w tt)
      go (err e) w d (inl same) = inl same
      go (err e) w d (inr t) = inr (inl t)

module _ {E F A : Type 0} {Pre : Db → Type 0} {S : Db → A → Db → Type 0}
    {T : Db → Db → Type 0} where
  pub Ensures-map_err :
      (g : E → F) (m : Exec E A) → Ensures Pre S T m → Ensures Pre S T (map_err g m)
  unfolding map_err
  Ensures-map_err g m h = record { at = λ w p. go (m w).0 w.db (m w).1.db (h.at w p) }
    where
      go : (r : Result A E) (d d' : Db) → Outcome S T d r d' → Outcome S T d (mapped g r) d'
      go (ok a) d d' o = o
      go (err e) d d' o = o

-- nothing is said of an operation
module _ {E A : Type 0} where
  pub Ensures-any : (m : Exec E A) → Ensures (λ _. Unit) (λ _ _ _. Unit) (λ _ _. Unit) m
  Ensures-any m = record { at = λ w p. go w.db (m w).0 (m w).1.db }
    where
      go : (d : Db) (r : Result A E) (d' : Db) → Outcome (λ _ _ _. Unit) (λ _ _. Unit) d r d'
      go d (ok a) d' = tt
      go d (err e) d' = inr tt

-- the run of two parts that returned: the first returned, and the second from where it ended
module _ {E A B : Type 0} where
  pub bind-eq-ok :
      (m : Exec E A) (f : A → Exec E B) (w : World) (b : B)
      → ((m >>= f) w).0 ≡ ok b
      → (a : A) × ((m w).0 ≡ ok a) × ((f a (m w).1).0 ≡ ok b) × (((m >>= f) w).1 ≡ (f a (m w).1).1)
  unfolding ◌>>=◌
  bind-eq-ok m f w b = go (m w).0 (m w).1
    where
      go :
          (r : Result A E) (w' : World)
          → (continue r f w').0 ≡ ok b
          → (a : A) × (r ≡ ok a) × ((f a w').0 ≡ ok b) × ((continue r f w').1 ≡ (f a w').1)
      go (ok a) w' h = (a, refl, h, refl)
      go (err e) w' h = absurd (cc)
