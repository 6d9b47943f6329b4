-- ===== src/App/Selection.antt =====
-- app.rs: the cursor. Which row, view, category and JVM is selected, and how the keys move it.
pub mod Window
use oprofiler.Base.{
  ℕ, zero, suc, ◌+◌, ◌-◌, ◌%◌, Bool, true, false, not, ℤ, List, [], ◌∷◌, ◌++◌, Option, none, some,
  length, get_elem?, is_empty, any_of, position, ltb, leb, ◌==◌, if◌then◌else◌, eq_ℤ, min, max,
  is_nonneg, saturating_add, unsigned_abs,
}
use oprofiler.Base.Text.{codes, to_decimal}
use oprofiler.Base.Maps.{member, remove}
use oprofiler.Model.Floats.{Host}
use oprofiler.Model.Views.{
  ViewId, CategoryEntry, categories, same_view, same_category, live_all_objects,
  live_recorded_objects, live_allocation_call_tree, live_allocation_hot_spots, live_class_tracker,
  heap_classes,
}
use oprofiler.Model.Rows.{LogLevel, JvmTarget}
use oprofiler.App.State.{
  App, Now, FocusPane, sidebar, main, InputMode, push_log, current_category_views,
}
use oprofiler.App.Rows.{
  selected_hotspot_method_id, hotspot_children, visible_allocation_hotspot_rows,
  selected_allocation_hotspot_node_id, allocation_hotspot_has_children,
}

-- Steps of the cursor on a list whose last place is `max_idx`; `usize` has 64 bits.
unfoldable pub move_index : ℕ → ℤ → ℕ → ℕ
move_index current delta max_idx =
    if is_nonneg delta
    then min (saturating_add 64 current (unsigned_abs delta)) max_idx
    else current - unsigned_abs delta

-- The new offset of a page that shows `page_rows` rows (at least one) from `offset` on.
unfoldable pub keep_visible : ℕ → ℕ → ℕ → ℕ
keep_visible offset selected page_rows =
    let page = max page_rows 1 in
    if ltb selected offset
    then selected
    else if leb (saturating_add 64 offset page) selected
    then selected - (page - 1)
    else offset

abbrev pub is_main : FocusPane → Bool
is_main main = true
is_main sidebar = false

abbrev pub memory_view : ViewId → Bool
memory_view live_all_objects = true
memory_view live_recorded_objects = true
memory_view live_allocation_call_tree = true
memory_view live_allocation_hot_spots = true
memory_view live_class_tracker = true
memory_view heap_classes = true
memory_view _ = false

-- `times n f`: a `for` loop that runs `f` n times.
unfoldable pub times {ℓ} : {A : Type ℓ} → ℕ → (A → A) → A → A
times zero f a = a
times (suc n) f a = times n f (f a)

-- Whether a category's views hold a view, and its place there.
abbrev entry_has : ViewId → CategoryEntry → Bool
entry_has view entry = any_of (λ v. same_view v view) entry.views

abbrev or_zero : Option ℕ → ℕ
or_zero none = 0
or_zero (some i) = i

abbrev pid_at : List JvmTarget → ℕ → Option ℕ
pid_at targets i = elim (get_elem? targets i) [ none ↦ none | some t ↦ some t.pid ]

module _ {F : Type 0} where
  unfoldable pub is_memory_view : App F → Bool
  is_memory_view app = memory_view app.selected_view

  unfoldable pub toggle_focus_pane : App F → App F
  toggle_focus_pane app = record app {
    focus_pane = elim app.focus_pane [ sidebar ↦ main | main ↦ sidebar ];
  }

  unfoldable pub go_to_first_view_in_category : App F → App F
  go_to_first_view_in_category app = elim (current_category_views app) [
    | [] ↦ app
    | view ∷ rest ↦ record app { selected_view = view }
  ]

  abbrev at_category : ℕ → App F → App F
  at_category idx app = record app {
    selected_category_idx = idx;
    selected_item_idx = 0;
    list_offset = 0;
  }

  unfoldable pub next_category : App F → App F
  unfolding go_to_first_view_in_category
  next_category app =
      go_to_first_view_in_category
        (at_category ((app.selected_category_idx + 1) % length categories) app)

  unfoldable pub prev_category : App F → App F
  unfolding go_to_first_view_in_category
  prev_category app =
      go_to_first_view_in_category
        (at_category ((app.selected_category_idx + length categories - 1) % length categories) app)

  -- `self.selected_view = views[self.selected_item_idx]`; `none` is the panic out of bounds.
  unfoldable pub show_item : App F → Option (App F)
  show_item app = elim (get_elem? (current_category_views app) app.selected_item_idx) [
    | none ↦ none
    | some view ↦ some (record app { selected_view = view })
  ]

  -- The next view of the category, or the next category; and the same upwards.
  unfoldable pub item_down : App F → App F
  item_down app =
      if ltb (app.selected_item_idx + 1) (length (current_category_views app))
      then record app { selected_item_idx = app.selected_item_idx + 1 }
      else next_category app

  unfoldable pub item_up : App F → App F
  item_up app =
      if ltb 0 app.selected_item_idx
      then record app { selected_item_idx = app.selected_item_idx - 1 }
      else prev_category app

  unfoldable pub navigate_sidebar_down : App F → Option (App F)
  navigate_sidebar_down app = show_item (item_down app)

  unfoldable pub navigate_sidebar_up : App F → Option (App F)
  navigate_sidebar_up app = show_item (item_up app)

  -- The loop of `go_to_view` over the categories from index `i` on.
  unfoldable pub go_to_view_from : ViewId → ℕ → List CategoryEntry → App F → App F
  go_to_view_from view i [] app = app
  go_to_view_from view i (entry ∷ rest) app =
      if entry_has view entry
      then record app {
        selected_category_idx = i;
        selected_item_idx = or_zero (position (λ v. same_view v view) entry.views);
        expanded =
            if any_of (λ c. same_category c entry.category) app.expanded
            then app.expanded
            else app.expanded ++ entry.category ∷ [];
      }
      else go_to_view_from view (i + 1) rest app

  unfoldable pub go_to_view : ViewId → App F → App F
  unfolding go_to_view_from
  go_to_view view app = go_to_view_from view 0 categories (record app { selected_view = view })

  unfoldable pub enter_filter_mode : App F → App F
  enter_filter_mode app = record app { input_mode = InputMode.filter; filter_input = [] }

  unfoldable pub on_selected_jvm_changed : Now → App F → App F
  on_selected_jvm_changed now app =
      let cleared : App F = record app {
        cpu = record app.cpu {
          methods = [];
          method_edges = [];
          expanded_hotspots = [];
          selected_hotspot_idx = 0;
        };
      } in
      elim app.selected_pid [
        | none ↦ cleared
        | some pid ↦
            push_log now LogLevel.ok (codes "Switch JVM") (codes "selected JVM " ++ to_decimal pid)
              cleared
      ]

  -- The JVM `jump` places on from the selected one, around the list; the first where none is selected.
  unfoldable pub jumped : ℕ → App F → App F
  jumped jump app =
      let current = or_zero app.selected_pid in
      let count = length app.jvm_targets in
      let target = elim (position (λ j. j.pid == current) app.jvm_targets) as (λ _. ℕ) [
        | none ↦ 0
        | some idx ↦ (idx + jump) % count
      ] in
      record app { selected_pid = pid_at app.jvm_targets target }

  unfoldable pub step_jvm : ℕ → Now → App F → App F
  step_jvm jump now app =
      if is_empty app.jvm_targets then app else on_selected_jvm_changed now (jumped jump app)

  unfoldable pub next_jvm : Now → App F → App F
  next_jvm now app = step_jvm 1 now app

  unfoldable pub prev_jvm : Now → App F → App F
  prev_jvm now app = step_jvm (length app.jvm_targets - 1) now app

module _ {F : Type 0} (host : Host F) where
  -- `toggle` of a row in a set of expanded rows: `insert`, and `remove` where it was there.
  abbrev toggled : ℤ → List ℤ → List ℤ
  toggled id set = if member eq_ℤ id set then remove eq_ℤ id set else id ∷ set

  unfoldable pub toggle_selected_hotspot_expanded : App F → App F
  toggle_selected_hotspot_expanded app = elim (selected_hotspot_method_id host app) [
    | none ↦ app
    | some id ↦ if is_empty (hotspot_children app id) then app else record app {
      cpu = record app.cpu { expanded_hotspots = toggled id app.cpu.expanded_hotspots };
    }
  ]

  -- The cursor is cut back to the last row that is shown.
  abbrev clip_allocation : App F → App F
  clip_allocation app = record app {
    memory = record app.memory {
      selected_row_idx =
          min app.memory.selected_row_idx (length (visible_allocation_hotspot_rows host app) - 1);
    };
  }

  unfoldable pub toggle_selected_allocation_hotspot_expanded : App F → App F
  toggle_selected_allocation_hotspot_expanded app =
      elim (selected_allocation_hotspot_node_id host app) [
        | none ↦ app
        | some id ↦
            if not (allocation_hotspot_has_children host app id)
            then app
            else clip_allocation (record app {
              memory = record app.memory {
                expanded_hotspots = toggled id app.memory.expanded_hotspots;
              };
            })
      ]
