-- ===== src/Store/Exec.antt =====
-- Fallible operations on the world. A statement of SQL is one call of the engine, which the
-- environment may let fail; a transaction that is not committed leaves no trace in the tables.
use opendaemon.Prelude.{◌+◌, String, Option, none, some, if◌then◌else◌, Result, ok, err}
use opendaemon.Store.World.{World, Db}

abbrev pub Exec : Type 0 → Type 0 → Type 0
Exec E A = World → Result A E × World

module _ {E A : Type 0} where
  unfoldable pub pure : A → Exec E A
  pure a w = (ok a, w)

  unfoldable pub raise : E → Exec E A
  raise e w = (err e, w)

  unfoldable pub lift : Result A E → Exec E A
  lift r w = (r, w)

  -- a row that a query has to have
  unfoldable pub required : E → Option A → Exec E A
  required e none w = (err e, w)
  required e (some a) w = (ok a, w)

abbrev pub continue : {E A B : Type 0} → Result A E → (A → Exec E B) → Exec E B
continue (ok a) f w = f a w
continue (err e) f w = (err e, w)

infixl 10 ◌>>=◌ ◌>>◌
-- unfolding this unfolds the actions above too
unfoldable pub ◌>>=◌ : {E A B : Type 0} → Exec E A → (A → Exec E B) → Exec E B
unfolding pure raise lift required
◌>>=◌ m f w = let (r, w') = m w in continue r f w'

abbrev pub ◌>>◌ : {E A B : Type 0} → Exec E A → Exec E B → Exec E B
m >> n = m >>= λ _. n

-- `map_err` on the result of an operation
abbrev pub mapped : {E F A : Type 0} → (E → F) → Result A E → Result A F
mapped f (ok a) = ok a
mapped f (err e) = err (f e)

unfoldable pub map_err : {E F A : Type 0} → (E → F) → Exec E A → Exec F A
map_err f m w = let (r, w') = m w in (mapped f r, w')

abbrev counted : World → World
counted w = record w { calls = w.calls + 1 }

abbrev pub attempt : {E : Type 0} → E → Option Db → World → Result (Unit {0}) E × World
attempt failure none w = (err failure, w)
attempt failure (some d) w = (ok tt, record w { db = d })

abbrev pub applied : {E : Type 0} → Result Db E → World → Result (Unit {0}) E × World
applied (ok d) w = (ok tt, record w { db = d })
applied (err e) w = (err e, w)

module _ {E : Type 0} (failure : E) where
  -- one call that may fail: `connection()`, `transaction()`, `commit()`
  unfoldable pub call : Exec E (Unit {0})
  call w = if w.fails w.calls then (err failure, counted w) else (ok tt, counted w)

  unfoldable pub query : {A : Type 0} → (Db → A) → Exec E A
  query f w = if w.fails w.calls then (err failure, counted w) else (ok (f w.db), counted w)

  -- a statement that a constraint of the schema may refuse
  unfoldable pub constrained : (Db → Option Db) → Exec E (Unit {0})
  constrained f w =
      if w.fails w.calls then (err failure, counted w) else attempt failure (f w.db) (counted w)

  -- a statement whose refusal by a constraint is an error of its own
  unfoldable pub refusable : (Db → Result Db E) → Exec E (Unit {0})
  refusable f w = if w.fails w.calls then (err failure, counted w) else applied (f w.db) (counted w)

  unfoldable pub statement : (Db → Db) → Exec E (Unit {0})
  unfolding constrained
  statement f = constrained (λ d. some (f d))

  unfoldable pub now_rfc3339 : Exec E String
  now_rfc3339 w =
      if w.fails w.calls then (err failure, counted w) else (ok (w.stamp w.calls), counted w)

abbrev pub rolled_back : {E A : Type 0} → Db → Result A E → World → Result A E × World
rolled_back before (ok a) w = (ok a, w)
rolled_back before (err e) w = (err e, record w { db = before })

-- the body of a transaction, its last step being `commit()`; an error on the way drops the
-- transaction, which rolls it back
unfoldable pub transaction : {E A : Type 0} → Exec E A → Exec E A
transaction body w = let (r, w') = body w in rolled_back w.db r w'
