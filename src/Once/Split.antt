-- ===== src/Once/Split.antt =====
-- crates/tui/src/lib.rs: what the two listings together show of a recording.
use oprofiler.Base.{
  All, ◌≢◌, ◌≡◌, List, [], ◌∷◌, ◌++◌, true, false, not, keep, Bool, Bool-cases, inl, inr, arith,
}
use oprofiler.Base.Sort.{insert_sorted, sort_by, sort_by-perm, sort_by-IsSorted, IsSorted}
use oprofiler.Base.Text.{codes, text_eq_iff}
use oprofiler.Protocol.Messages.{HotSpot}
use oprofiler.Once.{is_sql, longer, database_rows, hotspot_rows}
use mathlib.Core.List.{Perm, perm_middle}
use mathlib.Core.List.Perm

split-perm {ℓ} :
    {A : Type ℓ} (p : A → Bool) (xs : List A) → Perm (keep p xs ++ keep (λ x. not (p x)) xs) xs
split-perm p [] = Perm.refl []
split-perm p (x ∷ xs) = elim (Bool-cases (p x)) [
  | inl e ↦ rw e (Perm.cons x (split-perm p xs))
  | inr e ↦ rw e (
      Perm.trans (perm_middle (keep p xs) (keep (λ y. not (p y)) xs))
        (Perm.cons x (split-perm p xs)))
]

module _ {F : Type 0} where
  longer_asym : (a b : HotSpot F) → longer a b ≡ true → longer b a ≡ false
  longer_asym a b h = ground (arith, h)

  -- What follows from a test holds of all that it keeps.
  All-keep :
      {P : HotSpot F → Type 0} (p : HotSpot F → Bool) (xs : List (HotSpot F))
      → ((x : HotSpot F) → p x ≡ true → P x)
      → All P (keep p xs)
  All-keep p [] h = tt
  All-keep p (x ∷ xs) h = elim (Bool-cases (p x)) [
    | inl e ↦ rw e (h x e, All-keep p xs h)
    | inr e ↦ rw e (All-keep p xs h)
  ]

  All-insert_sorted :
      (P : HotSpot F → Type 0) (x : HotSpot F) (ys : List (HotSpot F))
      → P x
      → All P ys
      → All P (insert_sorted longer x ys)
  unfolding insert_sorted
  All-insert_sorted P x [] px a = (px, tt)
  All-insert_sorted P x (y ∷ ys) px (py, a) =
      ground (arith, px, py, a, All-insert_sorted P x ys px a)

  All-sort_by :
      (P : HotSpot F → Type 0) (xs : List (HotSpot F)) → All P xs → All P (sort_by longer xs)
  unfolding sort_by
  All-sort_by P [] a = tt
  All-sort_by P (x ∷ xs) (px, a) = All-insert_sorted P x (sort_by longer xs) px (All-sort_by P xs a)

  -- Before the limit cuts them, the database listing has only hot spots of the class SQL and the other
  -- listing only those of other classes; together they have each hot spot as often as it was recorded;
  -- and both are sorted with the longest own time first.
  pub rows_split :
      (hot_spots : List (HotSpot F))
      → All (λ row. row.class_name ≡ codes "SQL") (database_rows hot_spots)
        × (All (λ row. row.class_name ≢ codes "SQL") (hotspot_rows hot_spots)
            × (Perm (database_rows hot_spots ++ hotspot_rows hot_spots) hot_spots
                × (IsSorted longer (database_rows hot_spots)
                    × IsSorted longer (hotspot_rows hot_spots))))
  unfolding database_rows hotspot_rows
  rows_split hot_spots = (
    All-sort_by (λ row. row.class_name ≡ codes "SQL") (keep is_sql hot_spots)
        (All-keep is_sql hot_spots (λ row e. (text_eq_iff row.class_name (codes "SQL")).0 e)),
    (
      All-sort_by (λ row. row.class_name ≢ codes "SQL") (keep (λ row. not (is_sql row)) hot_spots)
          (All-keep (λ row. not (is_sql row)) hot_spots
            (λ row e same. ground (arith, e, (text_eq_iff row.class_name (codes "SQL")).1 same))),
      (
        Perm.trans
            (Perm.append (sort_by-perm longer (keep is_sql hot_spots))
              (sort_by-perm longer (keep (λ row. not (is_sql row)) hot_spots)))
            (split-perm is_sql hot_spots),
        (
          sort_by-IsSorted longer longer_asym (keep is_sql hot_spots),
          sort_by-IsSorted longer longer_asym (keep (λ row. not (is_sql row)) hot_spots),
        ),
      ),
    ),
  )
