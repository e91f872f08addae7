-- ===== src/Prelude/Dict.antt =====
-- Go's `map[string]V` as an association list. `insert` replaces in place and appends a new key, so
-- a dictionary built by it holds each key once; iteration visits the entries in list order, and
-- what is proved holds for every order, as Go promises none.
use mathlib.Core.Path.{◌≡◌, refl}
use mathlib.Core.Bool.{Bool, false}
use mathlib.Core.List.{List, [], ◌∷◌}
use mathlib.Core.Option.{Option, none, some}
use Prim.Native.Nat.{◌+◌, ◌≤◌}
use Prim.Native.String.{String}
use native.Mathlib.Omega.{arith}
use text.Mathlib.Text.{◌==◌ as str_eq}
use text.Mathlib.TextEquality.{eq_iff}
use text.Mathlib.TextPositions.{eq_refl}
use mathlib.Core.Logic.{◌⊎◌}
use vehicle_positions.Prelude.Tests.{if◌then◌else◌}
use vehicle_positions.Prelude.Lists.{length}

abbrev pub Dict {ℓ} : Type ℓ → Type ℓ
Dict V = List (String × V)

module _ {ℓ} {V : Type ℓ} where
  unfoldable pub lookup : String → Dict V → Option V
  lookup k [] = none
  lookup k ((j, v) ∷ m) = if str_eq j k then some v else lookup k m

  -- `m[k] = v`
  unfoldable pub insert : String → V → Dict V → Dict V
  insert k v [] = (k, v) ∷ []
  insert k v ((j, w) ∷ m) =
      let rest = insert k v m in if str_eq j k then (k, v) ∷ m else (j, w) ∷ rest

  -- `delete(m, k)`
  unfoldable pub delete : String → Dict V → Dict V
  delete k [] = []
  delete k ((j, v) ∷ m) = let rest = delete k m in if str_eq j k then rest else (j, v) ∷ rest

  -- the values, in iteration order
  unfoldable pub values : Dict V → List V
  values [] = []
  values ((k, v) ∷ m) = v ∷ values m

  -- `for k, v := range m { if !p(v) { delete(m, k) } }`
  unfoldable pub keep_values : (V → Bool) → Dict V → Dict V
  keep_values p [] = []
  keep_values p ((k, v) ∷ m) = let rest = keep_values p m in if p v then (k, v) ∷ rest else rest

  -- every key stands once
  abbrev pub Fresh : String → Dict V → Type 0
  Fresh k [] = Unit
  Fresh k ((j, v) ∷ m) = (str_eq j k ≡ false) × Fresh k m

  abbrev pub IsDict : Dict V → Type 0
  IsDict [] = Unit
  IsDict ((k, v) ∷ m) = Fresh k m × IsDict m

module _ {ℓ} {V : Type ℓ} where
  pub lookup-insert :
      (at asked : String) (x : V) (d : Dict V)
      → lookup asked (insert at x d) ≡ (if str_eq at asked then some x else lookup asked d)
  unfolding insert lookup
  lookup-insert at asked x [] = refl
  lookup-insert at asked x ((first, y) ∷ d) =
      let deeper = lookup-insert at asked x d in
      ground (arith, deeper, eq_iff at asked, eq_iff first at, eq_iff first asked)

  pub lookup-delete :
      (k j : String) (m : Dict V)
      → lookup j (delete k m) ≡ (if str_eq k j then none else lookup j m)
  unfolding lookup delete
  lookup-delete k j [] = ground arith
  lookup-delete k j ((i, w) ∷ m) =
      ground (arith, eq_iff k j, eq_iff i k, eq_iff i j, lookup-delete k j m)

  pub lookup_of_Fresh : (k : String) (m : Dict V) → Fresh k m → lookup k m ≡ none
  unfolding lookup
  lookup_of_Fresh k [] h = refl
  lookup_of_Fresh k ((j, v) ∷ m) h = ground (arith, lookup_of_Fresh k m)

  -- A sweep by value keeps an entry exactly if its value passes.
  pub lookup-keep_values :
      (p : V → Bool) (k : String) (m : Dict V)
      → IsDict m
      → lookup k (keep_values p m)
        ≡ elim (lookup k m) [ none ↦ none | some v ↦ if p v then some v else none ]
  unfolding lookup keep_values
  lookup-keep_values p k [] h = refl
  lookup-keep_values p k ((j, v) ∷ m) h =
      ground (arith, lookup-keep_values p k m, eq_iff j k, lookup_of_Fresh j m, lookup_of_Fresh k m)

  pub Fresh-insert :
      (k j : String) (v : V) (m : Dict V) → str_eq j k ≡ false → Fresh k m → Fresh k (insert j v m)
  unfolding insert
  Fresh-insert k j v [] e h = (e, tt)
  Fresh-insert k j v ((i, w) ∷ m) e h = ground (arith, Fresh-insert k j v m)

  pub insert-IsDict : (k : String) (v : V) (m : Dict V) → IsDict m → IsDict (insert k v m)
  unfolding insert
  insert-IsDict k v [] h = (tt, tt)
  insert-IsDict k v ((i, w) ∷ m) h =
      ground (arith, Fresh-insert i k v m, insert-IsDict k v m, eq_iff i k, eq_iff k i)

  pub Fresh-delete : (k j : String) (m : Dict V) → Fresh k m → Fresh k (delete j m)
  unfolding delete
  Fresh-delete k j [] h = tt
  Fresh-delete k j ((i, w) ∷ m) h = ground (arith, Fresh-delete k j m)

  pub delete-IsDict : (k : String) (m : Dict V) → IsDict m → IsDict (delete k m)
  unfolding delete
  delete-IsDict k [] h = tt
  delete-IsDict k ((i, w) ∷ m) h = ground (arith, Fresh-delete i k m, delete-IsDict k m)

  pub Fresh-keep_values :
      (p : V → Bool) (k : String) (m : Dict V) → Fresh k m → Fresh k (keep_values p m)
  unfolding keep_values
  Fresh-keep_values p k [] h = tt
  Fresh-keep_values p k ((i, w) ∷ m) h = ground (arith, Fresh-keep_values p k m)

  pub keep_values-IsDict : (p : V → Bool) (m : Dict V) → IsDict m → IsDict (keep_values p m)
  unfolding keep_values
  keep_values-IsDict p [] h = tt
  keep_values-IsDict p ((i, w) ∷ m) h =
      ground (arith, Fresh-keep_values p i m, keep_values-IsDict p m)

  -- Writing a key that is there keeps the size; a new key adds one.
  pub length-insert :
      (k : String) (v : V) (m : Dict V)
      → length (insert k v m) ≡ elim (lookup k m) [ none ↦ length m + 1 | some w ↦ length m ]
  unfolding insert lookup
  length-insert k v [] = refl
  length-insert k v ((i, w) ∷ m) = ground (arith, length-insert k v m)

  pub length-delete : (k : String) (m : Dict V) → length (delete k m) ≤ length m
  unfolding delete
  length-delete k [] = omega arith
  length-delete k ((i, w) ∷ m) = ground (arith, length-delete k m)

  pub length-keep_values : (p : V → Bool) (m : Dict V) → length (keep_values p m) ≤ length m
  unfolding keep_values
  length-keep_values p [] = omega arith
  length-keep_values p ((i, w) ∷ m) = ground (arith, length-keep_values p m)

pub ruleset dict_laws = (lookup-insert, lookup-delete)

module _ {ℓ} {V : Type ℓ} where
  -- Where an entry comes from after a write, and that a deleted key is gone.
  pub insert-cases :
      (k j : String) (v w : V) (m : Dict V)
      → lookup j (insert k v m) ≡ some w
      → (k ≡ j) × (v ≡ w) ⊎ (str_eq k j ≡ false) × (lookup j m ≡ some w)
  insert-cases k j v w m h = ground (arith, lookup-insert k j v m, eq_iff k j)

  pub delete-cases :
      (k j : String) (w : V) (m : Dict V)
      → lookup j (delete k m) ≡ some w
      → (str_eq k j ≡ false) × (lookup j m ≡ some w)
  delete-cases k j w m h = ground (arith, lookup-delete k j m)

  pub lookup-insert_self : (k : String) (v : V) (m : Dict V) → lookup k (insert k v m) ≡ some v
  lookup-insert_self k v m = simp (lookup-insert, eq_refl)

  pub lookup-insert_ne :
      (k j : String) (v : V) (m : Dict V)
      → str_eq k j ≡ false
      → lookup j (insert k v m) ≡ lookup j m
  lookup-insert_ne k j v m h = rw (lookup-insert, h)

  pub lookup-delete_ne :
      (k j : String) (m : Dict V) → str_eq k j ≡ false → lookup j (delete k m) ≡ lookup j m
  lookup-delete_ne k j m h = rw (lookup-delete, h)
