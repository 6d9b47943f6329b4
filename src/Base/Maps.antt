-- ===== src/Base/Maps.antt =====
-- Maps as association lists over keys with a Boolean equality: what the code uses of `HashMap`,
-- `BTreeMap` and `HashSet`.
use mathlib.Core.Path.{◌≡◌, refl}
use mathlib.Core.Logic.{◌↔◌}
use mathlib.Core.Bool.{Bool, true, false, ◌||◌}
use mathlib.Core.Option.{Option, none, some}
use mathlib.Core.List.{List, [], ◌∷◌}
use native.Mathlib.Omega.{arith}
use oprofiler.Base.Tests.{if◌then◌else◌}

module _ {ℓ κ} {K : Type ℓ} {V : Type κ} (eq : K → K → Bool) where
  unfoldable pub lookup : K → List (K × V) → Option V
  lookup k [] = none
  lookup k ((j, v) ∷ m) = if eq j k then some v else lookup k m

  unfoldable pub insert : K → V → List (K × V) → List (K × V)
  insert k v [] = (k, v) ∷ []
  insert k v ((j, w) ∷ m) = if eq j k then (j, v) ∷ m else (j, w) ∷ insert k v m

  -- `collect` into a map: a later entry of a key takes the place of an earlier one.
  unfoldable pub collect : List (K × V) → List (K × V) → List (K × V)
  unfolding insert
  collect m [] = m
  collect m ((k, v) ∷ rest) = collect (insert k v m) rest

  pub lookup-insert :
      ((a b : K) → (eq a b ≡ true) ↔ (a ≡ b))
      → (k j : K) (v : V) (m : List (K × V))
      → lookup j (insert k v m) ≡ (if eq k j then some v else lookup j m)
  unfolding lookup insert
  lookup-insert law k j v [] = refl
  lookup-insert law k j v ((i, w) ∷ m) =
      ground (arith, law i k, law i j, law k j, lookup-insert law k j v m)

module _ {ℓ} {K : Type ℓ} (eq : K → K → Bool) where
  unfoldable pub member : K → List K → Bool
  member k [] = false
  member k (x ∷ xs) = eq x k || member k xs

  -- A set without a key.
  unfoldable pub remove : K → List K → List K
  remove k [] = []
  remove k (x ∷ xs) = if eq x k then remove k xs else x ∷ remove k xs

  pub member-remove :
      ((a b : K) → (eq a b ≡ true) ↔ (a ≡ b))
      → (k j : K) (xs : List K) → member j (remove k xs) ≡ (if eq k j then false else member j xs)
  unfolding member remove
  member-remove law k j [] = ground arith
  member-remove law k j (x ∷ xs) =
      ground (arith, law x k, law x j, law k j, member-remove law k j xs)
