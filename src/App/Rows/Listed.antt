-- ===== src/App/Rows/Listed.antt =====
-- app.rs: the listing of the allocation rows ends where the table has its parents first.
use oprofiler.Base.{
  ℕ, zero, suc, ◌+◌, ◌≤◌, ◌<◌, ◌≡◌, ◌↔◌, refl, sym, ap, ◌∙◌, subst, true, not, ◌&&◌, ℤ, pos, negsuc,
  List, [], ◌∷◌, ◌++◌, Option, none, some, length, is_empty, All, if◌then◌else◌, eq_ℤ, eq_ℤ_iff,
  arith, Bool-cases, Option-cases, inl, inr,
}
use oprofiler.Base.Options.{◌>>=◌}
use oprofiler.Base.Maps.{lookup, insert, lookup-insert, member}
use oprofiler.Base.Sort.{insert_sorted, sort_by}
use oprofiler.Seq.{All-append}
use oprofiler.Model.Floats.{Host}
use oprofiler.Model.Rows.{AllocationHotSpotRow}
use oprofiler.App.State.{App}
use oprofiler.App.Rows.{
  same_id, RowMap, rows_under, group_by_parent, sort_groups, bigger_first,
  allocation_children_by_parent, has_child, append_children, append_visible,
  allocation_hotspot_rows, listed_rows,
}

same_id_iff : (a b : Option ℤ) → (same_id a b ≡ true) ↔ (a ≡ b)
unfolding same_id
same_id_iff none none = ground arith
same_id_iff none (some b) = ground arith
same_id_iff (some a) none = ground arith
same_id_iff (some a) (some b) = ground (arith, eq_ℤ_iff a b)

-- A parent's number is smaller than the row's own, or there is no parent.
abbrev IsBefore : Option ℤ → ℕ → Type 0
IsBefore none i = Unit {0}
IsBefore (some (pos p)) i = p < i
IsBefore (some (negsuc p)) i = ⊥

-- The row has a number below a bound, and its parent a smaller one.
abbrev pub IsNumbered : ℕ → AllocationHotSpotRow → Type 0
IsNumbered n row = (i : ℕ) × ((row.node_id ≡ pos i) × ((i < n) × IsBefore row.parent_id i))

abbrev IsChild : ℕ → Option ℤ → AllocationHotSpotRow → Type 0
IsChild n parent row = IsNumbered n row × (row.parent_id ≡ parent)

-- The groups of a map have numbered rows, each below its parent.
abbrev IsGrouped : ℕ → RowMap → Type 0
IsGrouped n m =
    (parent : Option ℤ) (rows : List AllocationHotSpotRow)
    → lookup same_id parent m ≡ some rows
    → All (IsChild n parent) rows

rows_under-IsGrouped :
    (n : ℕ) (m : RowMap) (parent : Option ℤ)
    → IsGrouped n m
    → All (IsChild n parent) (rows_under (lookup same_id parent m))
rows_under-IsGrouped n m parent g = elim (Option-cases (lookup same_id parent m)) [
  | inl e ↦ subst (λ found. All (IsChild n parent) (rows_under found)) (sym e) tt
  | inr (rows, e) ↦
      subst (λ found. All (IsChild n parent) (rows_under found)) (sym e) (g parent rows e)
]

insert-IsGrouped :
    (n : ℕ) (m : RowMap) (key : Option ℤ) (rows : List AllocationHotSpotRow)
    → IsGrouped n m
    → All (IsChild n key) rows
    → IsGrouped n (insert same_id key rows m)
insert-IsGrouped n m key rows g a parent found e = elim (Bool-cases (same_id key parent)) [
  | inl same ↦
      let stored : some rows ≡ some found =
        ap (λ b. if b then some rows else lookup same_id parent m) (sym same)
        ∙ (sym (lookup-insert same_id same_id_iff key parent rows m) ∙ e) in
      subst (λ p. All (IsChild n p) found) ((same_id_iff key parent).0 same)
        (subst (λ o. All (IsChild n key) (rows_under o)) stored a)
  | inr other ↦ g parent found (
      ap (λ b. if b then some rows else lookup same_id parent m) (sym other)
      ∙ (sym (lookup-insert same_id same_id_iff key parent rows m) ∙ e))
]

group_by_parent-IsGrouped :
    (n : ℕ) (rows : List AllocationHotSpotRow) (m : RowMap)
    → All (IsNumbered n) rows
    → IsGrouped n m
    → IsGrouped n (group_by_parent m rows)
unfolding group_by_parent
group_by_parent-IsGrouped n [] m a g = g
group_by_parent-IsGrouped n (row ∷ rest) m (numbered, a) g =
    let older = rows_under (lookup same_id row.parent_id m) in
    group_by_parent-IsGrouped n rest (insert same_id row.parent_id (older ++ row ∷ []) m) a (
      insert-IsGrouped n m row.parent_id (older ++ row ∷ []) g (
        All-append (IsChild n row.parent_id) older (row ∷ [])
          (rows_under-IsGrouped n m row.parent_id g) ((numbered, refl), tt)))

module _ (P : AllocationHotSpotRow → Type 0) where
  All-insert_bigger :
      (x : AllocationHotSpotRow) (ys : List AllocationHotSpotRow)
      → P x
      → All P ys
      → All P (insert_sorted bigger_first x ys)
  unfolding insert_sorted
  All-insert_bigger x [] px a = (px, tt)
  All-insert_bigger x (y ∷ ys) px (py, a) = elim (Bool-cases (bigger_first y x)) [
    | inl e ↦ rw e (py, All-insert_bigger x ys px a)
    | inr e ↦ rw e (px, (py, a))
  ]

  All-bigger_first : (xs : List AllocationHotSpotRow) → All P xs → All P (sort_by bigger_first xs)
  unfolding sort_by
  All-bigger_first [] a = tt
  All-bigger_first (x ∷ xs) (px, a) =
      All-insert_bigger x (sort_by bigger_first xs) px (All-bigger_first xs a)

lookup-sort_groups :
    (parent : Option ℤ) (m : RowMap)
    → lookup same_id parent (sort_groups m)
      ≡ (lookup same_id parent m >>= λ rows. some (sort_by bigger_first rows))
unfolding sort_groups lookup
lookup-sort_groups parent [] = refl
lookup-sort_groups parent ((key, rows) ∷ m) = ground (arith, lookup-sort_groups parent m)

sort_groups-IsGrouped : (n : ℕ) (m : RowMap) → IsGrouped n m → IsGrouped n (sort_groups m)
sort_groups-IsGrouped n m g parent found e = elim (Option-cases (lookup same_id parent m)) [
  | inl f ↦ absurd (ground (arith, f, e, lookup-sort_groups parent m))
  | inr (rows, f) ↦
      let stored : some (sort_by bigger_first rows) ≡ some found =
        ap (λ o. o >>= λ rows. some (sort_by bigger_first rows)) (sym f)
        ∙ (sym (lookup-sort_groups parent m) ∙ e) in
      subst (λ o. All (IsChild n parent) (rows_under o)) stored
        (All-bigger_first (IsChild n parent) rows (g parent rows f))
]

nothing-IsGrouped : (n : ℕ) → IsGrouped n []
unfolding lookup
nothing-IsGrouped n parent rows e = absurd (ground (arith, e))

allocation_children_by_parent-IsGrouped :
    (n : ℕ) (rows : List AllocationHotSpotRow)
    → All (IsNumbered n) rows
    → IsGrouped n (allocation_children_by_parent rows)
unfolding allocation_children_by_parent
allocation_children_by_parent-IsGrouped n rows a =
    sort_groups-IsGrouped n (group_by_parent [] rows)
      (group_by_parent-IsGrouped n rows [] a (nothing-IsGrouped n))

-- There is a listing.
abbrev Ends : Option (List AllocationHotSpotRow) → Type 0
Ends listed = (rows : List AllocationHotSpotRow) × (listed ≡ some rows)

-- The numbers of a row's children begin behind its own.
abbrev first_child : Option ℤ → ℕ
first_child none = 0
first_child (some (pos p)) = p + 1
first_child (some (negsuc p)) = 0

first_child-le : (parent : Option ℤ) (i : ℕ) → IsBefore parent i → first_child parent ≤ i
first_child-le none i h = omega arith
first_child-le (some (pos p)) i h = omega (arith, h)
first_child-le (some (negsuc p)) i h = absurd h

append_children-Ends :
    (n : ℕ) (parent : Option ℤ)
    (descend : ℤ → List AllocationHotSpotRow → Option (List AllocationHotSpotRow))
    (all_rows : List AllocationHotSpotRow) (expanded : List ℤ)
    (rows visible : List AllocationHotSpotRow)
    → ((i : ℕ) (out : List AllocationHotSpotRow)
        → first_child parent ≤ i
        → i < n
        → Ends (descend (pos i) out))
    → All (IsChild n parent) rows
    → Ends (append_children descend all_rows expanded rows visible)
unfolding append_children
append_children-Ends n parent descend all_rows expanded [] visible ends a = (visible, refl)
append_children-Ends n parent descend all_rows expanded (row ∷ rest) visible ends
      (((i, (named, (low, before))), below), a) =
    let pushed = visible ++ row ∷ [] in
    let opened = member eq_ℤ row.node_id expanded && has_child all_rows row.node_id in
    elim (Bool-cases opened) [
      | inr closed ↦
          rw closed (append_children-Ends n parent descend all_rows expanded rest pushed ends a)
      | inl shown ↦
          let (deeper, e) =
            subst (λ id. Ends (descend id pushed)) (sym named)
              (ends i pushed (first_child-le parent i (subst (λ p. IsBefore p i) below before))
                low) in
          rw (shown, e) (append_children-Ends n parent descend all_rows expanded rest deeper ends a)
    ]

append_visible-Ends :
    (n depth : ℕ) (parent : Option ℤ) (all_rows : List AllocationHotSpotRow) (children : RowMap)
    (expanded : List ℤ) (visible : List AllocationHotSpotRow)
    → IsGrouped n children
    → first_child parent ≤ n
    → n < first_child parent + depth
    → Ends (append_visible depth parent all_rows children expanded visible)
unfolding append_visible
append_visible-Ends n zero parent all_rows children expanded visible g low enough =
    absurd (omega (arith, low, enough))
append_visible-Ends n (suc depth) parent all_rows children expanded visible g low enough =
    elim (Option-cases (lookup same_id parent children)) [
      | inl e ↦ rw (e, append_visible) (visible, refl)
      | inr (rows, e) ↦
          rw (e, append_visible)
            (append_children-Ends n parent
              (λ id out. append_visible depth (some id) all_rows children expanded out) all_rows
              expanded rows visible
              (λ i out from below.
                append_visible-Ends n depth (some (pos i)) all_rows children expanded out g
                  (omega (arith, below)) (omega (arith, enough, from)))
              (g parent rows e))
    ]

module _ {F : Type 0} (host : Host F) where
  -- Where the rows of the table have numbers below their count and each parent has a smaller number
  -- than its row, the listing of the visible rows ends, whatever rows are expanded: its calls nest no
  -- deeper than there are rows.
  pub listed_rows-ends :
      (app : App F)
      → All
          (IsNumbered (length (allocation_hotspot_rows host app)))
          (allocation_hotspot_rows host app)
      → (rows : List AllocationHotSpotRow) × (listed_rows host app ≡ some rows)
  unfolding listed_rows
  listed_rows-ends app a =
      let rows = allocation_hotspot_rows host app in
      elim (Bool-cases (not (is_empty app.filter_input))) [
        | inl e ↦ rw e (rows, refl)
        | inr e ↦ rw e (
            append_visible-Ends (length rows) (suc (length rows)) none rows
              (allocation_children_by_parent rows) app.memory.expanded_hotspots []
              (allocation_children_by_parent-IsGrouped (length rows) rows a) (omega arith)
              (omega arith))
      ]
