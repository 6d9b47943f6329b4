-- ===== src/Render/Memory/Order.antt =====
-- crates/tui/src/render.rs: which rows the memory table has, and in what order.
use oprofiler.Base.{
  zero, suc, List, ltb, ◌∙◌, sym, refl, ◌==◌, ℕ, ◌≡◌, [], ◌∷◌, true, false, Bool, Bool-cases, inl,
  inr, arith,
}
use oprofiler.Base.Sort.{
  IsSortedFrom, insert_sorted, sort_by, sort_by-perm, sort_by-IsSorted, IsSorted,
}
use oprofiler.Base.Text.{Text}
use mathlib.Core.List.{Perm}
use oprofiler.Model.Floats.{Host}
use oprofiler.Model.Rows.{MemoryClassRow}
use oprofiler.Model.Views.{same_view, live_recorded_objects}
use oprofiler.App.State.{App}
use oprofiler.App.Rows.{filtered_memory_rows}
use oprofiler.Render.Memory.{before_in, less_text, memory_order, memory_rows}

less_text_asym : (xs ys : Text) → less_text xs ys ≡ true → less_text ys xs ≡ false
unfolding less_text
less_text_asym xs [] h = absurd (ground (arith, h))
less_text_asym [] (y ∷ ys) h = refl
less_text_asym (x ∷ xs) (y ∷ ys) h = ground (arith, h, less_text_asym xs ys)

before_in_asym :
    (column : ℕ) (a b : MemoryClassRow) → before_in column a b ≡ true → before_in column b a ≡ false
unfolding before_in
before_in_asym column a b h = elim (Bool-cases (column == 0)) [
  | inl e ↦ ground (arith, h, e, less_text_asym a.name b.name)
  | inr e ↦ ground (arith, h, e)
]

memory_order_asym :
    (column : ℕ) (asc : Bool) (a b : MemoryClassRow)
    → memory_order column asc a b ≡ true
    → memory_order column asc b a ≡ false
unfolding memory_order
memory_order_asym column true a b h = before_in_asym column a b h
memory_order_asym column false a b h = elim (Bool-cases (ltb 1 column)) [
  | inl e ↦ ground (arith, h, e)
  | inr e ↦ ground (arith, h, e, before_in_asym column b a)
]

module _ {A : Type 0} (less : A → A → Bool) where
  -- Rows in one order are in any that agrees with it.
  IsSortedFrom-agrees :
      (other : A → A → Bool)
      → ((a b : A) → less a b ≡ other a b)
      → (x : A) (xs : List A) → IsSortedFrom less x xs
      → IsSortedFrom other x xs
  IsSortedFrom-agrees other same x [] s = tt
  IsSortedFrom-agrees other same x (y ∷ ys) (first, s) =
      (sym (same y x) ∙ first, IsSortedFrom-agrees other same y ys s)

  IsSorted-agrees :
      (other : A → A → Bool)
      → ((a b : A) → less a b ≡ other a b)
      → (xs : List A) → IsSorted less xs
      → IsSorted other xs
  IsSorted-agrees other same [] s = tt
  IsSorted-agrees other same (x ∷ xs) s = IsSortedFrom-agrees other same x xs s

  insert_sorted-first :
      ((a b : A) → less a b ≡ false) → (x : A) (xs : List A) → insert_sorted less x xs ≡ x ∷ xs
  unfolding insert_sorted
  insert_sorted-first never x [] = refl
  insert_sorted-first never x (y ∷ ys) = rw (never y x) refl

  -- Where nothing comes before anything, sorting changes nothing.
  sort_by-unordered : ((a b : A) → less a b ≡ false) → (xs : List A) → sort_by less xs ≡ xs
  unfolding sort_by
  sort_by-unordered never [] = refl
  sort_by-unordered never (x ∷ xs) =
      rw (sort_by-unordered never xs) (insert_sorted-first never x xs)

-- How the rows shown are ordered: by the names, by the instances, or by the sizes, rising or falling;
-- for falling sizes they are as they came.
abbrev pub Ordered : ℕ → Bool → List MemoryClassRow → List MemoryClassRow → Type 0
Ordered zero true rows shown = IsSorted (λ a b. less_text a.name b.name) shown
Ordered zero false rows shown = IsSorted (λ a b. less_text b.name a.name) shown
Ordered (suc zero) true rows shown = IsSorted (λ a b. ltb a.instances b.instances) shown
Ordered (suc zero) false rows shown = IsSorted (λ a b. ltb b.instances a.instances) shown
Ordered (suc (suc n)) true rows shown = IsSorted (λ a b. ltb a.bytes b.bytes) shown
Ordered (suc (suc n)) false rows shown = shown ≡ rows

sort_by-Ordered :
    (column : ℕ) (asc : Bool) (rows : List MemoryClassRow)
    → Ordered column asc rows (sort_by (memory_order column asc) rows)
unfolding memory_order before_in
sort_by-Ordered zero true rows =
    IsSorted-agrees (memory_order 0 true) (λ a b. less_text a.name b.name) (λ a b. refl)
      (sort_by (memory_order 0 true) rows)
      (sort_by-IsSorted (memory_order 0 true) (memory_order_asym 0 true) rows)
sort_by-Ordered zero false rows =
    IsSorted-agrees (memory_order 0 false) (λ a b. less_text b.name a.name) (λ a b. refl)
      (sort_by (memory_order 0 false) rows)
      (sort_by-IsSorted (memory_order 0 false) (memory_order_asym 0 false) rows)
sort_by-Ordered (suc zero) true rows =
    IsSorted-agrees (memory_order 1 true) (λ a b. ltb a.instances b.instances) (λ a b. refl)
      (sort_by (memory_order 1 true) rows)
      (sort_by-IsSorted (memory_order 1 true) (memory_order_asym 1 true) rows)
sort_by-Ordered (suc zero) false rows =
    IsSorted-agrees (memory_order 1 false) (λ a b. ltb b.instances a.instances) (λ a b. refl)
      (sort_by (memory_order 1 false) rows)
      (sort_by-IsSorted (memory_order 1 false) (memory_order_asym 1 false) rows)
sort_by-Ordered (suc (suc n)) true rows =
    let less = memory_order (suc (suc n)) true in
    IsSorted-agrees less (λ a b. ltb a.bytes b.bytes) (λ a b. ground arith) (sort_by less rows)
      (sort_by-IsSorted less (memory_order_asym (suc (suc n)) true) rows)
sort_by-Ordered (suc (suc n)) false rows =
    sort_by-unordered (memory_order (suc (suc n)) false) (λ a b. ground arith) rows

module _ {F : Type 0} (host : Host F) where
  -- Outside the view of recorded objects the memory table has the rows that pass the filter, each as
  -- often as the histogram has it. They are in the order of the names, the instances or the sizes, the
  -- column and the direction as chosen, except for falling sizes, which leave the rows as they came.
  pub memory_rows-Ordered :
      (app : App F)
      → same_view app.selected_view live_recorded_objects ≡ false
      → Perm (memory_rows host app) (filtered_memory_rows host app)
        × Ordered app.memory.sort_column app.memory.sort_asc
            (filtered_memory_rows host app)
            (memory_rows host app)
  unfolding memory_rows
  memory_rows-Ordered app other =
      let less = memory_order app.memory.sort_column app.memory.sort_asc in
      let rows = filtered_memory_rows host app in
      rw (other, memory_rows)
        (sort_by-perm less rows, sort_by-Ordered app.memory.sort_column app.memory.sort_asc rows)
