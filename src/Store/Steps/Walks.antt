-- ===== src/Store/Steps/Walks.antt =====
-- Operations that change the tables by steps only, however many of them, and whether they return
-- or fail.
use opendaemon.Prelude.{◌≡◌, sym, subst, Result, ok, err, inl, inr}
use opendaemon.Store.World.{World, Db}
use opendaemon.Store.Exec.{Exec, ◌>>=◌, continue, map_err}
use opendaemon.Store.Logic.{Reads}
use opendaemon.Store.Steps.{Steps, none, more}
use opendaemon.Store.Steps.Operations.{Operation, run, run-Step}

pub record Walks {E A : Type 0} (m : Exec E A) : Type 0 where
  pub steps : (w : World) → Steps w.db (m w).1.db

pub Steps-append : {d d' d'' : Db} → Steps d d' → Steps d' d'' → Steps d d''
Steps-append p none = p
Steps-append p (more q s) = more (Steps-append p q) s

module _ {E A : Type 0} where
  pub Walks-of_Reads : {Q : Db → A → Type 0} (m : Exec E A) → Reads Q m → Walks m
  Walks-of_Reads m h = record { steps = λ w. subst (Steps w.db) (sym (h.same w)) none }

  -- an operation of the task store
  pub Walks-of_run : (m : Exec E A) (op : Operation) → ((w : World) → run op w ≡ (m w).1) → Walks m
  Walks-of_run m op same = record {
    steps = λ w.
        subst (λ (x : World). Steps w.db x.db) (same w)
          (elim (run-Step op w) [ inl e ↦ subst (Steps w.db) (sym e) none | inr s ↦ more none s ]);
  }

  pub Walks-map_err : {F : Type 0} (g : E → F) (m : Exec E A) → Walks m → Walks (map_err g m)
  unfolding map_err
  Walks-map_err g m h = record { steps = h.steps }

module _ {E A B : Type 0} where
  pub Walks-bind :
      (m : Exec E A) (f : A → Exec E B) → Walks m → ((a : A) → Walks (f a)) → Walks (m >>= f)
  unfolding ◌>>=◌
  Walks-bind m f hm hf = record { steps = λ w. Steps-append (hm.steps w) (next (m w).0 (m w).1) }
    where
      next : (r : Result A E) (w : World) → Steps w.db (continue r f w).1.db
      next (ok a) w = (hf a).steps w
      next (err e) w = none
