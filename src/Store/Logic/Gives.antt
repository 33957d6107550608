-- ===== src/Store/Logic/Gives.antt =====
-- What an operation that only reads returns where no call of the engine or of the clock fails.
use opendaemon.Prelude.{ℕ, ◌≡◌, refl, ap, false, Option, some, Result, ok}
use opendaemon.Store.World.{World, Db}
use opendaemon.Store.Exec.{Exec, pure, lift, required, ◌>>=◌, map_err, mapped, call, query}

-- no call fails
abbrev pub Fine : World → Type 0
Fine w = (k : ℕ) → w.fails k ≡ false

-- on the tables `d`, and where no call fails, `m` returns `a` and changes nothing
pub record Gives {E A : Type 0} (d : Db) (m : Exec E A) (a : A) : Type 0 where
  pub at : (w : World) → w.db ≡ d → Fine w → ((m w).0 ≡ ok a) × ((m w).1.db ≡ d) × Fine (m w).1

module _ {E A : Type 0} {d : Db} where
  pub Gives-pure : (a : A) → Gives {E = E} d (pure a) a
  unfolding pure
  Gives-pure a = record { at = λ w e fine. (refl, e, fine) }

  pub Gives-lift : (r : Result A E) (a : A) → r ≡ ok a → Gives d (lift r) a
  unfolding lift
  Gives-lift r a h = record { at = λ w e fine. (h, e, fine) }

  pub Gives-required : (x : E) (o : Option A) (a : A) → o ≡ some a → Gives d (required x o) a
  unfolding required
  Gives-required x o a h = record { at = λ w e fine. rw h (refl, e, fine) }

  pub Gives-query : (x : E) (f : Db → A) → Gives d (query x f) (f d)
  unfolding query
  Gives-query x f = record { at = λ w e fine. rw (fine w.calls) (ap (λ y. ok (f y)) e, e, fine) }

pub Gives-call : {E : Type 0} {d : Db} (x : E) → Gives d (call x) tt
unfolding call
Gives-call x = record { at = λ w e fine. rw (fine w.calls) (refl, e, fine) }

module _ {E F A : Type 0} {d : Db} where
  pub Gives-map_err : (g : E → F) (m : Exec E A) (a : A) → Gives d m a → Gives d (map_err g m) a
  unfolding map_err
  Gives-map_err g m a h = record {
    at = λ w e fine. let (r, same, still) = h.at w e fine in (ap (mapped g) r, same, still);
  }

module _ {E A B : Type 0} {d : Db} where
  pub Gives-bind :
      (m : Exec E A) (f : A → Exec E B) (a : A) (b : B)
      → Gives d m a
      → Gives d (f a) b
      → Gives d (m >>= f) b
  unfolding ◌>>=◌
  Gives-bind m f a b hm hf = record {
    at = λ w e fine. let (r, same, still) = hm.at w e fine in rw r (hf.at (m w).1 same still);
  }
