-- ===== src/Prelude/Sets.antt =====
-- `BTreeSet`, as the ascending list of its elements: `rank` is the order of the elements.
use Prim.Native.Nat.{ℕ, ◌<◌}
use mathlib.Core.Path.{◌≡◌, refl}
use mathlib.Core.Bool.{◌||◌}
use mathlib.Core.List.{List, [], ◌∷◌}
use native.Mathlib.Omega.{arith}
use opendaemon.Prelude.Tests.{if◌then◌else◌, ltb, ◌==◌}
use opendaemon.Prelude.Lists.{any, All}

-- one insertion into a `BTreeSet`, held as the sorted list of its elements
module _ {A : Type 0} (rank : A → ℕ) where
  abbrev pub insert_sorted : A → List A → List A
  insert_sorted a [] = a ∷ []
  insert_sorted a (b ∷ bs) =
      let rest = insert_sorted a bs in
      if rank a == rank b then b ∷ bs else if ltb (rank a) (rank b) then a ∷ b ∷ bs else b ∷ rest

  -- `into_iter().collect::<BTreeSet<_>>().into_iter().collect()`, the list being
  -- inserted from its last element on; the order of insertion does not show in a set
  abbrev pub btree_set : List A → List A
  btree_set [] = []
  btree_set (a ∷ as') = insert_sorted a (btree_set as')

module _ {A : Type 0} (rank : A → ℕ) where
  -- strictly ascending, hence without repetition
  abbrev pub IsAscending : List A → Type 0
  IsAscending [] = Unit
  IsAscending (x ∷ xs) = All (λ y. rank x < rank y) xs × IsAscending xs

  All-insert_sorted :
      (n : ℕ) (a : A) (xs : List A)
      → n < rank a
      → All (λ y. n < rank y) xs
      → All (λ y. n < rank y) (insert_sorted rank a xs)
  All-insert_sorted n a [] h k = (h, tt)
  All-insert_sorted n a (x ∷ xs) h k = ground (arith, All-insert_sorted n a xs h k.1)

  All-weaken : (m n : ℕ) (xs : List A) → m < n → All (λ y. n < rank y) xs → All (λ y. m < rank y) xs
  All-weaken m n [] h k = tt
  All-weaken m n (x ∷ xs) h k = (omega arith, All-weaken m n xs h k.1)

  insert_sorted-IsAscending :
      (a : A) (xs : List A) → IsAscending xs → IsAscending (insert_sorted rank a xs)
  insert_sorted-IsAscending a [] h = (tt, tt)
  insert_sorted-IsAscending a (x ∷ xs) h = ground (
    arith,
    insert_sorted-IsAscending a xs h.1,
    All-insert_sorted (rank x) a xs,
    All-weaken (rank a) (rank x) xs,
  )

  pub btree_set-IsAscending : (xs : List A) → IsAscending (btree_set rank xs)
  btree_set-IsAscending [] = tt
  btree_set-IsAscending (x ∷ xs) =
      insert_sorted-IsAscending x (btree_set rank xs) (btree_set-IsAscending xs)

  insert_sorted_least :
      (a : A) (xs : List A) → All (λ y. rank a < rank y) xs → insert_sorted rank a xs ≡ a ∷ xs
  insert_sorted_least a [] h = refl
  insert_sorted_least a (x ∷ xs) h = ground arith

  pub btree_set_of_IsAscending : (xs : List A) → IsAscending xs → btree_set rank xs ≡ xs
  btree_set_of_IsAscending [] h = refl
  btree_set_of_IsAscending (x ∷ xs) h =
      rw (btree_set_of_IsAscending xs h.1) (insert_sorted_least x xs h.0)

  any-insert_sorted :
      (r : ℕ) (a : A) (xs : List A)
      → any (λ y. r == rank y) (insert_sorted rank a xs)
        ≡ (r == rank a || any (λ y. r == rank y) xs)
  any-insert_sorted r a [] = refl
  any-insert_sorted r a (x ∷ xs) = ground (arith, any-insert_sorted r a xs)

  -- the set has the members of the list
  pub any-btree_set :
      (r : ℕ) (xs : List A) → any (λ y. r == rank y) (btree_set rank xs) ≡ any (λ y. r == rank y) xs
  any-btree_set r [] = refl
  any-btree_set r (x ∷ xs) = rw (any-insert_sorted r x (btree_set rank xs), any-btree_set r xs)
