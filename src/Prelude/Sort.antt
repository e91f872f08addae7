-- ===== src/Prelude/Sort.antt =====
-- `slices.SortStableFunc` and `slices.Sort`, as a stable insertion sort by a Boolean order.
use Prim.Native.Nat.{suc}
use Prim.Native.Nat.{Ordering}
use Prim.Native.String.{String, compare}
use mathlib.Core.Path.{◌≡◌, refl, ap, ◌∙◌}
use mathlib.Core.Bool.{Bool, true, false, ◌||◌}
use mathlib.Core.List.{List, [], ◌∷◌}
use native.Mathlib.Omega.{arith}
use vehicle_positions.Prelude.Tests.{if◌then◌else◌}
use vehicle_positions.Prelude.Lists.{length, any}

-- `a <= b` on strings, which Go compares byte by byte.
abbrev pub str_leb : String → String → Bool
str_leb a b = elim (compare a b) [ Ordering.gt ↦ false | _ ↦ true ]

module _ {ℓ} {A : Type ℓ} (le : A → A → Bool) where
  -- Before the first element that is not smaller: an insertion from the right keeps equals in order.
  unfoldable pub insert_sorted : A → List A → List A
  insert_sorted x [] = x ∷ []
  insert_sorted x (y ∷ ys) =
      let rest = insert_sorted x ys in if le x y then x ∷ y ∷ ys else y ∷ rest

  unfoldable pub sort : List A → List A
  unfolding insert_sorted
  sort [] = []
  sort (x ∷ xs) = insert_sorted x (sort xs)

  pub length-insert_sorted : (x : A) (ys : List A) → length (insert_sorted x ys) ≡ suc (length ys)
  unfolding insert_sorted
  length-insert_sorted x [] = omega arith
  length-insert_sorted x (y ∷ ys) = ground (arith, length-insert_sorted x ys)

  pub length-sort : (xs : List A) → length (sort xs) ≡ length xs
  unfolding sort
  length-sort [] = omega arith
  length-sort (x ∷ xs) = omega (arith, length-insert_sorted x (sort xs), length-sort xs)

  -- Each element is in order with the ones behind it.
  abbrev pub AllAbove : A → List A → Type 0
  AllAbove x [] = Unit
  AllAbove x (y ∷ ys) = (le x y ≡ true) × AllAbove x ys

  abbrev pub IsSorted : List A → Type 0
  IsSorted [] = Unit
  IsSorted (x ∷ xs) = AllAbove x xs × IsSorted xs

-- Where the order is total and transitive, the result is sorted.
module _ {ℓ} {A : Type ℓ} (le : A → A → Bool) (total : (a b : A) → le a b ≡ false → le b a ≡ true)
    (trans : (a b c : A) → le a b ≡ true → le b c ≡ true → le a c ≡ true) where
  AllAbove-trans : (x y : A) (ys : List A) → le x y ≡ true → AllAbove le y ys → AllAbove le x ys
  AllAbove-trans x y [] h a = tt
  AllAbove-trans x y (z ∷ zs) h a = (trans x y z h a.0, AllAbove-trans x y zs h a.1)

  AllAbove-insert_sorted :
      (x y : A) (ys : List A)
      → le x y ≡ true
      → AllAbove le x ys
      → AllAbove le x (insert_sorted le y ys)
  unfolding insert_sorted
  AllAbove-insert_sorted x y [] h a = (h, tt)
  AllAbove-insert_sorted x y (z ∷ zs) h a = ground (arith, AllAbove-insert_sorted x y zs)

  insert_sorted-IsSorted :
      (x : A) (ys : List A) → IsSorted le ys → IsSorted le (insert_sorted le x ys)
  unfolding insert_sorted
  insert_sorted-IsSorted x [] s = (tt, tt)
  insert_sorted-IsSorted x (y ∷ ys) s = ground (
    arith,
    insert_sorted-IsSorted x ys,
    AllAbove-insert_sorted y x ys,
    AllAbove-trans x y ys,
    total x y,
  )

  pub sort-IsSorted : (xs : List A) → IsSorted le (sort le xs)
  unfolding sort
  sort-IsSorted [] = tt
  sort-IsSorted (x ∷ xs) = insert_sorted-IsSorted x (sort le xs) (sort-IsSorted xs)

module _ {ℓ} {A : Type ℓ} (le : A → A → Bool) (p : A → Bool) where
  any-insert_sorted : (x : A) (ys : List A) → any p (insert_sorted le x ys) ≡ p x || any p ys
  unfolding insert_sorted any
  any-insert_sorted x [] = refl
  any-insert_sorted x (y ∷ ys) = ground (arith, any-insert_sorted x ys)

  -- Sorting loses no element and invents none.
  pub any-sort : (xs : List A) → any p (sort le xs) ≡ any p xs
  unfolding sort any
  any-sort [] = refl
  any-sort (x ∷ xs) = any-insert_sorted x (sort le xs) ∙ ap (λ b. p x || b) (any-sort xs)
