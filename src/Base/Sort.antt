-- ===== src/Base/Sort.antt =====
-- Rust's stable `sort_by`, as insertion: an element passes another only if that one is strictly less.
use Prim.Native.Nat.{suc}
use mathlib.Core.Path.{◌≡◌, refl}
use mathlib.Core.Bool.{Bool, true, false}
use mathlib.Core.List.{List, [], ◌∷◌, Perm}
use mathlib.Core.List.Perm
use native.Mathlib.Omega.{arith}
use oprofiler.Base.Tests.{if◌then◌else◌, Bool-cases}
use oprofiler.Base.Lists.{length}
use mathlib.Core.Logic.{inl, inr}

module _ {ℓ} {A : Type ℓ} (less : A → A → Bool) where
  unfoldable pub insert_sorted : A → List A → List A
  insert_sorted x [] = x ∷ []
  insert_sorted x (y ∷ ys) = if less y x then y ∷ insert_sorted x ys else x ∷ y ∷ ys

  unfoldable pub sort_by : List A → List A
  unfolding insert_sorted
  sort_by [] = []
  sort_by (x ∷ xs) = insert_sorted x (sort_by xs)

  pub insert_sorted-perm : (x : A) (ys : List A) → Perm (insert_sorted x ys) (x ∷ ys)
  unfolding insert_sorted
  insert_sorted-perm x [] = Perm.refl (x ∷ [])
  insert_sorted-perm x (y ∷ ys) = elim (Bool-cases (less y x)) [
    | inl e ↦ rw e (Perm.trans (Perm.cons y (insert_sorted-perm x ys)) (Perm.swap x y ys))
    | inr e ↦ rw e (Perm.refl (x ∷ y ∷ ys))
  ]

  pub sort_by-perm : (xs : List A) → Perm (sort_by xs) xs
  unfolding sort_by
  sort_by-perm [] = Perm.refl []
  sort_by-perm (x ∷ xs) =
      Perm.trans (insert_sorted-perm x (sort_by xs)) (Perm.cons x (sort_by-perm xs))

  pub length-insert_sorted : (x : A) (ys : List A) → length (insert_sorted x ys) ≡ suc (length ys)
  unfolding insert_sorted
  length-insert_sorted x [] = refl
  length-insert_sorted x (y ∷ ys) = ground (arith, length-insert_sorted x ys)

  pub length-sort_by : (xs : List A) → length (sort_by xs) ≡ length xs
  unfolding sort_by
  length-sort_by [] = refl
  length-sort_by (x ∷ xs) = ground (arith, length-insert_sorted x (sort_by xs), length-sort_by xs)

  -- No element is strictly less than the one before it.
  abbrev pub IsSortedFrom : A → List A → Type 0
  IsSortedFrom x [] = Unit {0}
  IsSortedFrom x (y ∷ ys) = (less y x ≡ false) × IsSortedFrom y ys

  abbrev pub IsSorted : List A → Type 0
  IsSorted [] = Unit {0}
  IsSorted (x ∷ xs) = IsSortedFrom x xs

  module _ (asym : (a b : A) → less a b ≡ true → less b a ≡ false) where
    insert_sorted-IsSortedFrom :
        (x y : A) (ys : List A)
        → less x y ≡ false
        → IsSortedFrom y ys
        → IsSortedFrom y (insert_sorted x ys)
    unfolding insert_sorted
    insert_sorted-IsSortedFrom x y [] h s = ground arith
    insert_sorted-IsSortedFrom x y (z ∷ ys) h s = elim (Bool-cases (less z x)) [
      | inl e ↦ rw e (s.0, insert_sorted-IsSortedFrom x z ys (asym z x e) s.1)
      | inr e ↦ rw e (h, (e, s.1))
    ]

    insert_sorted-IsSorted : (x : A) (ys : List A) → IsSorted ys → IsSorted (insert_sorted x ys)
    unfolding insert_sorted
    insert_sorted-IsSorted x [] s = tt
    insert_sorted-IsSorted x (y ∷ ys) s = elim (Bool-cases (less y x)) [
      | inl e ↦ rw e (insert_sorted-IsSortedFrom x y ys (asym y x e) s)
      | inr e ↦ rw e (e, s)
    ]

    pub sort_by-IsSorted : (xs : List A) → IsSorted (sort_by xs)
    unfolding sort_by
    sort_by-IsSorted [] = tt
    sort_by-IsSorted (x ∷ xs) = insert_sorted-IsSorted x (sort_by xs) (sort_by-IsSorted xs)
