-- ===== src/Store/Logic.antt =====
-- Rules for what an operation does to the tables: one that only reads them, one that leaves an
-- invariant in force, and one that does all of its effect or none of it.
pub mod Writes
pub mod Gives
use opendaemon.Prelude.{
  ◌≡◌, refl, sym, subst, ◌∙◌, Option, some, ◌⊎◌, inl, inr, Result, ok, err, arith,
}
use opendaemon.Store.World.{World, Db}
use opendaemon.Store.Exec.{
  Exec, pure, lift, required, ◌>>=◌, continue, map_err, mapped, call, query, now_rfc3339,
  transaction, rolled_back,
}

-- `m` leaves the tables alone, and what it returns is `Q` of them
pub record Reads {E A : Type 0} (Q : Db → A → Type 0) (m : Exec E A) : Type 0 where
  pub same : (w : World) → (m w).1.db ≡ w.db
  pub returns : (w : World) (a : A) → (m w).0 ≡ ok a → Q w.db a

abbrev pub Anything : {A : Type 0} → Db → A → Type 0
Anything d a = Unit

module _ {E A : Type 0} where
  pub Reads-pure : (a : A) → Reads (λ _ b. b ≡ a) (pure {E = E} a)
  unfolding pure
  Reads-pure a = record { same = λ w. refl; returns = λ w b h. ground arith }

  pub Reads-lift : (r : Result A E) → Reads (λ _ a. r ≡ ok a) (lift r)
  unfolding lift
  Reads-lift r = record { same = λ w. refl; returns = λ w b h. h }

  pub Reads-required : (e : E) (o : Option A) → Reads (λ _ a. o ≡ some a) (required e o)
  unfolding required
  Reads-required e o = record { same = λ w. ground arith; returns = λ w b h. ground arith }

  pub Reads-query : (e : E) (f : Db → A) → Reads (λ d a. a ≡ f d) (query e f)
  unfolding query
  Reads-query e f = record { same = λ w. ground arith; returns = λ w b h. ground arith }

pub Reads-call : {E : Type 0} (e : E) → Reads Anything (call e)
unfolding call
Reads-call e = record { same = λ w. ground arith; returns = λ w b h. tt }

pub Reads-now_rfc3339 : {E : Type 0} (e : E) → Reads Anything (now_rfc3339 e)
unfolding now_rfc3339
Reads-now_rfc3339 e = record { same = λ w. ground arith; returns = λ w b h. tt }

module _ {E A B : Type 0} {Q : Db → A → Type 0} {R : A → Db → B → Type 0} where
  pub Reads-bind :
      (m : Exec E A) (f : A → Exec E B)
      → Reads Q m
      → ((a : A) → Reads (R a) (f a))
      → Reads (λ d b. (a : A) × Q d a × R a d b) (m >>= f)
  unfolding ◌>>=◌
  Reads-bind m f hm hf = record {
    same = λ w. same (m w).0 (m w).1 (hm.same w);
    returns = λ w b. returns (m w).0 (m w).1 b (hm.same w) (hm.returns w);
  }
    where
      same : {d : Db} (r : Result A E) (w : World) → w.db ≡ d → (continue r f w).1.db ≡ d
      same (ok a) w e = (hf a).same w ∙ e
      same (err x) w e = e

      returns :
          {d : Db} (r : Result A E) (w : World) (b : B)
          → w.db ≡ d
          → ((a : A) → r ≡ ok a → Q d a)
          → (continue r f w).0 ≡ ok b
          → (a : A) × Q d a × R a d b
      returns (ok a) w b e q h = (a, q a refl, subst (λ d. R a d b) e ((hf a).returns w b h))
      returns (err x) w b e q h = cc

module _ {E A : Type 0} {Q R : Db → A → Type 0} where
  pub Reads-weaken : (m : Exec E A) → ((d : Db) (a : A) → Q d a → R d a) → Reads Q m → Reads R m
  Reads-weaken m k h = record { same = h.same; returns = λ w a e. k w.db a (h.returns w a e) }

module _ {E A B : Type 0} {P : Db → A → Type 0} {Q : Db → B → Type 0} where
  -- the result of the first part is not used
  pub Reads-then : (m : Exec E A) (n : Exec E B) → Reads P m → Reads Q n → Reads Q (m >>= λ _. n)
  Reads-then m n hm hn =
      Reads-weaken (m >>= λ _. n) (λ d b h. h.2) (Reads-bind m (λ _. n) hm (λ _. hn))

module _ {E F A : Type 0} {Q : Db → A → Type 0} where
  pub Reads-map_err : (g : E → F) (m : Exec E A) → Reads Q m → Reads Q (map_err g m)
  unfolding map_err
  Reads-map_err g m h = record {
    same = h.same;
    returns = λ w a e. h.returns w a (of_mapped (m w).0 a e);
  }
    where
      of_mapped : (r : Result A E) (a : A) → mapped g r ≡ ok a → r ≡ ok a
      of_mapped (ok b) a e = cc
      of_mapped (err x) a e = cc

-- `S` if the operation returns; if it fails, no change at all, or the whole effect `T`
abbrev pub Outcome :
    {E A : Type 0} → (Db → A → Db → Type 0) → (Db → Db → Type 0) → Db → Result A E → Db → Type 0
Outcome S T d (ok a) d' = S d a d'
Outcome S T d (err e) d' = (d' ≡ d) ⊎ T d d'

pub record Ensures {E A : Type 0} (Pre : Db → Type 0) (S : Db → A → Db → Type 0)
    (T : Db → Db → Type 0) (m : Exec E A) : Type 0 where
  pub at : (w : World) → Pre w.db → Outcome S T w.db (m w).0 (m w).1.db

module _ {E A : Type 0} {Pre : Db → Type 0} {S : Db → A → Db → Type 0} {T : Db → Db → Type 0} where
  -- what is known where the operation returned
  pub Ensures-ok :
      (m : Exec E A)
      → Ensures Pre S T m
      → (w : World) (a : A) → Pre w.db
      → (m w).0 ≡ ok a
      → S w.db a (m w).1.db
  Ensures-ok m h w a p e = subst (λ x. Outcome S T w.db x (m w).1.db) e (h.at w p)

  -- an invariant that the effect keeps, and what a failure leaves behind keeps, is kept in any case
  pub Ensures-keeps :
      (I : Db → Type 0) (m : Exec E A)
      → Ensures Pre S T m
      → ((d : Db) (a : A) (d' : Db) → I d → S d a d' → I d')
      → ((d d' : Db) → I d → T d d' → I d')
      → (w : World) → Pre w.db
      → I w.db
      → I (m w).1.db
  Ensures-keeps I m h s t w p i = go w.db (m w).0 (m w).1.db i (h.at w p)
    where
      go : (d : Db) (r : Result A E) (d' : Db) → I d → Outcome S T d r d' → I d'
      go d (ok a) d' i o = s d a d' i o
      go d (err e) d' i (inl q) = subst I (sym q) i
      go d (err e) d' i (inr q) = t d d' i q

module _ {E A : Type 0} {Pre Pre' : Db → Type 0} {S S' : Db → A → Db → Type 0}
    {T T' : Db → Db → Type 0} where
  pub Ensures-weaken :
      (m : Exec E A)
      → ((d : Db) → Pre' d → Pre d)
      → ((d : Db) (a : A) (d' : Db) → Pre' d → S d a d' → S' d a d')
      → ((d d' : Db) → Pre' d → T d d' → T' d d')
      → Ensures Pre S T m
      → Ensures Pre' S' T' m
  Ensures-weaken m pre s t h = record {
    at = λ w p. go w.db (m w).0 (m w).1.db p (h.at w (pre w.db p));
  }
    where
      go : (d : Db) (r : Result A E) (d' : Db) → Pre' d → Outcome S T d r d' → Outcome S' T' d r d'
      go d (ok a) d' p o = s d a d' p o
      go d (err e) d' p (inl q) = inl q
      go d (err e) d' p (inr q) = inr (t d d' p q)

module _ {E A : Type 0} {Pre : Db → Type 0} {S : Db → A → Db → Type 0}
    {T T' : Db → Db → Type 0} where
  -- what a failure left done may have been nothing
  pub Ensures-failure :
      (m : Exec E A)
      → ((d d' : Db) → Pre d → T d d' → (d' ≡ d) ⊎ T' d d')
      → Ensures Pre S T m
      → Ensures Pre S T' m
  Ensures-failure m t h = record { at = λ w p. go w.db (m w).0 (m w).1.db p (h.at w p) }
    where
      go : (d : Db) (r : Result A E) (d' : Db) → Pre d → Outcome S T d r d' → Outcome S T' d r d'
      go d (ok a) d' p o = o
      go d (err e) d' p (inl q) = inl q
      go d (err e) d' p (inr q) = t d d' p q

module _ {E A B : Type 0} {Pre : Db → Type 0} {Q : Db → A → Type 0} {S : Db → B → Db → Type 0}
    {T : Db → Db → Type 0} where
  -- first a part that only reads
  pub Ensures-read :
      (m : Exec E A) (f : A → Exec E B)
      → Reads Q m
      → ((a : A) → Ensures (λ d. Pre d × Q d a) S T (f a))
      → Ensures Pre S T (m >>= f)
  unfolding ◌>>=◌
  Ensures-read m f hm hf = record {
    at = λ w p. go (m w).0 (m w).1 w.db (hm.same w) p (hm.returns w);
  }
    where
      go :
          (r : Result A E) (w : World) (d : Db)
          → w.db ≡ d
          → Pre d
          → ((a : A) → r ≡ ok a → Q d a)
          → Outcome S T d (continue r f w).0 (continue r f w).1.db
      go (ok a) w d e p q =
          subst (λ x. Outcome S T x (f a w).0 (f a w).1.db) e
            ((hf a).at w (subst (λ x. Pre x × Q x a) (sym e) (p, q a refl)))
      go (err x) w d e p q = inl e

  pub Ensures-then :
      (m : Exec E A) (n : Exec E B) → Reads Q m → Ensures Pre S T n → Ensures Pre S T (m >>= λ _. n)
  Ensures-then m n hm hn = Ensures-read m (λ _. n) hm λ a. record { at = λ w p. hn.at w p.0 }

module _ {E A B : Type 0} {Pre : Db → Type 0} {S : Db → A → Db → Type 0}
    {R : A → Db → B → Type 0} where
  -- a part that does `S` or fails with no change, and then a part that only reads
  pub Ensures-write :
      (m : Exec E A) (f : A → Exec E B)
      → Ensures Pre S (λ _ _. ⊥) m
      → ((a : A) → Reads (R a) (f a))
      → Ensures Pre (λ d b d'. (a : A) × S d a d' × R a d' b) (λ d d'. (a : A) × S d a d') (m >>= f)
  unfolding ◌>>=◌
  Ensures-write m f hm hf = record { at = λ w p. go (m w).0 (m w).1 w.db (hm.at w p) }
    where
      read :
          (a : A) (r : Result B E) (d d' d'' : Db)
          → d'' ≡ d'
          → S d a d'
          → ((b : B) → r ≡ ok b → R a d' b)
          → Outcome (λ d b d'. (a : A) × S d a d' × R a d' b) (λ d d'. (a : A) × S d a d') d r d''
      read a (ok b) d d' d'' e t q =
          (a, subst (S d a) (sym e) t, subst (λ x. R a x b) (sym e) (q b refl))
      read a (err x) d d' d'' e t q = inr (a, subst (S d a) (sym e) t)

      go :
          (r : Result A E) (w : World) (d : Db)
          → Outcome S (λ _ _. ⊥) d r w.db
          → Outcome
              (λ d b d'. (a : A) × S d a d' × R a d' b)
              (λ d d'. (a : A) × S d a d')
              d
              (continue r f w).0
              (continue r f w).1.db
      go (ok a) w d t = read a (f a w).0 d w.db (f a w).1.db ((hf a).same w) t ((hf a).returns w)
      go (err x) w d (inl e) = inl e
      go (err x) w d (inr n) = absurd n

-- an operation that only reads does its effect, none, in any case
module _ {E A : Type 0} {Pre : Db → Type 0} {Q : Db → A → Type 0} {T : Db → Db → Type 0} where
  pub Ensures-of_Reads : (m : Exec E A) → Reads Q m → Ensures Pre (λ d a d'. (d' ≡ d) × Q d a) T m
  Ensures-of_Reads m h = record { at = λ w p. go (m w).0 w.db (m w).1.db (h.same w) (h.returns w) }
    where
      go :
          (r : Result A E) (d d' : Db)
          → d' ≡ d
          → ((a : A) → r ≡ ok a → Q d a)
          → Outcome (λ d a d'. (d' ≡ d) × Q d a) T d r d'
      go (ok a) d d' e q = (e, q a refl)
      go (err x) d d' e q = inl e
