-- ===== src/Prelude/Lists.antt =====
-- Lists as the rows of a table: selection, update and search by a Boolean test.
use Prim.Native.Nat.{ℕ, suc, ◌+◌}
use mathlib.Core.Path.{◌≡◌, refl, ap, subst}
use mathlib.Core.Bool.{Bool, true, false, not, ◌||◌}
use mathlib.Core.List.{List, [], ◌∷◌, ◌++◌}
use mathlib.Core.Option.{Option, none, some, some-injective}
use mathlib.Core.Logic.{inl, inr}
use native.Mathlib.Omega.{arith}
use opendaemon.Prelude.Tests.{if◌then◌else◌, Bool-cases}

module _ {ℓ} {A : Type ℓ} where
  abbrev pub length : List A → ℕ
  length [] = 0
  length (x ∷ xs) = suc (length xs)

  -- `iter().any(…)`
  abbrev pub any : (A → Bool) → List A → Bool
  any p [] = false
  any p (x ∷ xs) = p x || any p xs

  -- the rows that a `WHERE` clause or a `filter` keeps
  abbrev pub select : (A → Bool) → List A → List A
  select p [] = []
  select p (x ∷ xs) = let rest = select p xs in if p x then x ∷ rest else rest

  -- the first row that a `WHERE` clause keeps (`query_row(…).optional()`, `find`)
  abbrev pub find : (A → Bool) → List A → Option A
  find p [] = none
  find p (x ∷ xs) = let rest = find p xs in if p x then some x else rest

  -- `UPDATE … SET f WHERE p`
  abbrev pub update_where : (A → Bool) → (A → A) → List A → List A
  update_where p f [] = []
  update_where p f (x ∷ xs) = (if p x then f x else x) ∷ update_where p f xs

  -- `UPDATE … WHERE rowid = ?` of the row that was inserted last
  abbrev pub update_last : (A → A) → List A → List A
  update_last f [] = []
  update_last f (x ∷ []) = f x ∷ []
  update_last f (x ∷ y ∷ ys) = x ∷ update_last f (y ∷ ys)

  abbrev pub All {κ} : (A → Type κ) → List A → Type κ
  All P [] = Unit
  All P (x ∷ xs) = P x × All P xs

module _ {ℓ} {A : Type ℓ} where
  pub length-append : (xs ys : List A) → length (xs ++ ys) ≡ length xs + length ys
  length-append [] ys = omega arith
  length-append (x ∷ xs) ys = omega (arith, length-append xs ys)

  pub length-update_where :
      (p : A → Bool) (f : A → A) (xs : List A) → length (update_where p f xs) ≡ length xs
  length-update_where p f [] = refl
  length-update_where p f (x ∷ xs) = ap suc (length-update_where p f xs)

  pub update_last-append :
      (f : A → A) (xs : List A) (x : A) → update_last f (xs ++ x ∷ []) ≡ xs ++ f x ∷ []
  update_last-append f [] x = refl
  update_last-append f (y ∷ []) x = refl
  update_last-append f (y ∷ z ∷ ys) x = ap (λ l. y ∷ l) (update_last-append f (z ∷ ys) x)

  pub select-append :
      (p : A → Bool) (xs ys : List A) → select p (xs ++ ys) ≡ select p xs ++ select p ys
  select-append p [] ys = refl
  select-append p (x ∷ xs) ys = ground (arith, select-append p xs ys)

  -- deleting what is not there
  pub select-not_of_none :
      (p : A → Bool) (xs : List A) → any p xs ≡ false → select (λ x. not (p x)) xs ≡ xs
  select-not_of_none p [] h = refl
  select-not_of_none p (x ∷ xs) h = ground (arith, select-not_of_none p xs)

  pub any-append : (p : A → Bool) (xs ys : List A) → any p (xs ++ ys) ≡ (any p xs || any p ys)
  any-append p [] ys = refl
  any-append p (x ∷ xs) ys = ground (arith, any-append p xs ys)

  -- what the search returns passes the test
  pub find_passes : (p : A → Bool) (xs : List A) (x : A) → find p xs ≡ some x → p x ≡ true
  find_passes p [] x h = cc
  find_passes p (y ∷ ys) x h = ground (arith, find_passes p ys x)

  pub find-append_of_some :
      (p : A → Bool) (xs ys : List A) (x : A) → find p xs ≡ some x → find p (xs ++ ys) ≡ some x
  find-append_of_some p [] ys x h = cc
  find-append_of_some p (y ∷ xs) ys x h = ground (arith, find-append_of_some p xs ys x)

module _ {ℓ κ} {A : Type ℓ} (P : A → Type κ) where
  pub All-append : (xs ys : List A) → All P xs → All P ys → All P (xs ++ ys)
  All-append [] ys hx hy = hy
  All-append (x ∷ xs) ys hx hy = (hx.0, All-append xs ys hx.1 hy)

  -- an update keeps `P` on every row if it keeps it on the rows that it changes
  pub All-update_where :
      (p : A → Bool) (f : A → A) (xs : List A)
      → ((x : A) → p x ≡ true → P x → P (f x))
      → All P xs
      → All P (update_where p f xs)
  All-update_where p f [] keep h = h
  All-update_where p f (x ∷ xs) keep h = (head (p x) (keep x), All-update_where p f xs keep h.1)
    where
      head : (b : Bool) → (b ≡ true → P x → P (f x)) → P (if b then f x else x)
      head true k = k refl h.0
      head false k = h.0

  pub All-select : (p : A → Bool) (xs : List A) → All P xs → All P (select p xs)
  All-select p [] h = tt
  All-select p (x ∷ xs) h = elim (Bool-cases (p x)) [
    | inl e ↦ rw e (h.0, All-select p xs h.1)
    | inr e ↦ rw e (All-select p xs h.1)
  ]

  pub All_of_find : (p : A → Bool) (xs : List A) (x : A) → All P xs → find p xs ≡ some x → P x
  All_of_find p [] x h e = absurd (cc)
  All_of_find p (y ∷ ys) x h e = pick (p y) (All_of_find p ys x h.1) e
    where
      pick :
          (b : Bool) → (find p ys ≡ some x → P x) → (if b then some y else find p ys) ≡ some x → P x
      pick true later q = subst P (some-injective y x q) h.0
      pick false later q = later q

module _ {ℓ} {A : Type ℓ} where
  -- an update of other rows does not show in a search
  pub find-update_where_other :
      (p q : A → Bool) (f : A → A) (xs : List A)
      → ((x : A) → p (f x) ≡ p x)
      → ((x : A) → p x ≡ true → q x ≡ false)
      → find p (update_where q f xs) ≡ find p xs
  find-update_where_other p q f [] keep other = refl
  find-update_where_other p q f (x ∷ xs) keep other =
      ground (arith, keep x, other x, find-update_where_other p q f xs keep other)

  -- nor does a deletion of other rows
  pub find-select_other :
      (p q : A → Bool) (xs : List A)
      → ((x : A) → p x ≡ true → q x ≡ false)
      → find p (select (λ x. not (q x)) xs) ≡ find p xs
  find-select_other p q [] other = refl
  find-select_other p q (x ∷ xs) other = ground (arith, other x, find-select_other p q xs other)
