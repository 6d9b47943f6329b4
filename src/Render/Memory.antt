-- ===== src/Render/Memory.antt =====
-- crates/tui/src/render.rs: the memory views.
pub mod Order
use oprofiler.Base.{
  false, zero, suc, ℕ, ◌+◌, ◌^◌, ◌%◌, List, [], ◌∷◌, ◌++◌, Option, none, some, Bool, true, not,
  ◌||◌, ◌&&◌, if◌then◌else◌, ltb, ◌==◌, take, drop, keep, max, min, is_empty, map, ◌-◌, is_positive,
  ℤ, eq_ℤ,
}
use oprofiler.Base.Options.{◌>>=◌}
use oprofiler.Base.Text.{Text, codes}
use oprofiler.Base.Sort.{sort_by}
use oprofiler.Base.Maps.{member}
use oprofiler.Model.Floats.{Host}
use oprofiler.Model.Rows.{MemoryClassRow, AllocationHotSpotRow}
use oprofiler.Model.Views.{label, live_allocation_hot_spots, same_view, live_recorded_objects}
use oprofiler.Format.{format_count, format_bytes, format_signed_count, format_signed_bytes}
use oprofiler.App.State.{App, sidebar, main}
use oprofiler.App.Rows.{
  filtered_memory_rows, visible_allocation_hotspot_rows, allocation_hotspot_rows, has_child,
}
use oprofiler.Render.Texts.{truncate_str, Shown, shows_empty, shows_lines, shows_table}

-- `str::cmp`.
unfoldable pub less_text : Text → Text → Bool
less_text xs [] = false
less_text [] (y ∷ ys) = true
less_text (x ∷ xs) (y ∷ ys) = ltb x y || (x == y && less_text xs ys)

-- The order of a column.
unfoldable pub before_in : ℕ → MemoryClassRow → MemoryClassRow → Bool
unfolding less_text
before_in column a b =
    if column == 0
    then less_text a.name b.name
    else if column == 1
    then ltb a.instances b.instances
    else ltb a.bytes b.bytes

-- The order of the table, by the chosen column and direction. For the falling sizes the code compares
-- a size with itself, so that no row comes before another.
unfoldable pub memory_order : ℕ → Bool → MemoryClassRow → MemoryClassRow → Bool
unfolding before_in
memory_order column asc a b =
    if asc then before_in column a b else if ltb 1 column then false else before_in column b a

unfoldable pub most_instances : List MemoryClassRow → ℕ
most_instances [] = 0
most_instances (r ∷ rest) = max r.instances (most_instances rest)

-- `sum::<u64>()`, which wraps around in the release build.
unfoldable pub all_instances : List MemoryClassRow → ℕ
all_instances [] = 0
all_instances (r ∷ rest) = (r.instances + all_instances rest) % 2 ^ 64

unfoldable pub blocks : ℕ → Text
blocks zero = []
blocks (suc n) = 9608 ∷ blocks n

unfoldable pub indent : ℕ → Text
indent zero = []
indent (suc n) = b' ' ∷ b' ' ∷ indent n

abbrev pub has_grown : MemoryClassRow → Bool
has_grown r = is_positive r.delta_instances || is_positive r.delta_bytes

unfoldable pub cells_of {ℓ} :
    {A : Type ℓ} → (A → Option (List Text)) → List A → Option (List (List Text))
cells_of cells [] = some []
cells_of cells (r ∷ rest) = do row ← cells r; rows ← cells_of cells rest; some (row ∷ rows)

unfoldable pub most_bytes : List AllocationHotSpotRow → ℕ
most_bytes [] = 0
most_bytes (r ∷ rest) = max r.bytes (most_bytes rest)

unfoldable pub root_bytes : List AllocationHotSpotRow → ℕ
root_bytes [] = 0
root_bytes (r ∷ rest) = elim r.parent_id [
  | none ↦ (r.bytes + root_bytes rest) % 2 ^ 64
  | some p ↦ root_bytes rest
]

module _ {F : Type 0} (host : Host F) where
  -- All rows of the table, in their order.
  unfoldable pub memory_rows : App F → List MemoryClassRow
  unfolding memory_order
  memory_rows app =
      let sorted =
        sort_by (memory_order app.memory.sort_column app.memory.sort_asc)
          (filtered_memory_rows host app) in
      if same_view app.selected_view live_recorded_objects then keep has_grown sorted else sorted

  unfoldable pub delta_cells : MemoryClassRow → Option (List Text)
  delta_cells r = do
    name ← truncate_str r.name 60
    some
        (name ∷ format_signed_count r.delta_instances ∷ format_signed_bytes host r.delta_bytes ∷ [])

  unfoldable pub object_cells : List MemoryClassRow → MemoryClassRow → Option (List Text)
  unfolding most_instances all_instances blocks
  object_cells all r = do
    name ← truncate_str r.name 60
    let bar = blocks (
        host.to_u64 (
          host.mul (host.div (host.of_nat r.instances) (host.of_nat (most_instances all)))
            (host.of_nat 30)))
    let share =
        host.mul (host.div (host.of_nat r.instances) (host.of_nat (all_instances all)))
          (host.of_nat 100)
    some (
        name
        ∷ (bar
            ++ (b' '
                ∷ (format_count r.instances
                    ++ (codes " (" ++ (host.fixed 0 share ++ codes "%) ")))))
        ∷ format_bytes host r.bytes
        ∷ [])

  abbrev memory_title : App F → Text
  memory_title app = codes " Live Memory (" ++ (label app.selected_view ++ codes ") ")

  -- The table, with the rows that are in sight from the offset on; `none` is a panic of a shortened
  -- name.
  abbrev memory_table : ℕ → App F → Option Shown
  memory_table height app =
      let rows = memory_rows app in
      let shown = take (height - 3) (drop app.memory.row_offset rows) in
      if same_view app.selected_view live_recorded_objects
      then (cells_of delta_cells shown >>= λ cells. some (
          shows_table (memory_title app)
            (codes "Name" ∷ codes "New Instances" ∷ codes "New Size" ∷ []) cells))
      else cells_of (object_cells rows) shown >>= λ cells. some (
          shows_table (memory_title app) (codes "Name" ∷ codes "Instances" ∷ codes "Size" ∷ [])
            cells)

  unfoldable pub tree_marker : List AllocationHotSpotRow → List ℤ → AllocationHotSpotRow → Text
  tree_marker all_rows expanded row =
      if has_child all_rows row.node_id
      then if member eq_ℤ row.node_id expanded then codes "v " else codes "> "
      else codes "  "

  unfoldable pub allocation_cells :
      List AllocationHotSpotRow → List ℤ → ℕ → ℕ → AllocationHotSpotRow → Option (List Text)
  unfolding tree_marker indent blocks
  allocation_cells all_rows expanded most total row = do
    let share = host.div (host.of_nat row.bytes) (host.of_nat total)
    let bar =
        host.to_u64
          (host.mul (host.div (host.of_nat row.bytes) (host.of_nat most)) (host.of_nat 20))
    name ←
        truncate_str (indent (min row.depth 8) ++ (tree_marker all_rows expanded row ++ row.name))
          72
    some (
        name
        ∷ (blocks (min bar 20)
            ++ (b' '
                ∷ (format_bytes host row.bytes
                    ++ (codes " ("
                        ++ (host.fixed 0 (host.mul share (host.of_nat 100)) ++ codes "%)")))))
        ∷ format_count row.allocations
        ∷ [])

  abbrev subtitle : App F → Text
  subtitle app =
      if not (is_empty app.memory.allocation_hotspots)
      then codes "allocation sites with callers"
      else elim app.memory.marked_heap [
        | some marked ↦ codes "since marked baseline"
        | none ↦ codes "class histogram fallback; press r after recording"
      ]

  abbrev focus_advice : App F → Text
  focus_advice app = elim app.focus_pane [
    | main ↦
        codes
          ")  [Main: Up/Down PgUp/PgDn=select Enter/Right=expand Left=collapse c=copy TSV Tab=nav] "
    | sidebar ↦ codes ")  [Tab focuses this table] "
  ]

  unfoldable pub render_allocation_hotspots : ℕ → App F → Option Shown
  unfolding allocation_cells most_bytes root_bytes cells_of
  render_allocation_hotspots height app =
      let rows = visible_allocation_hotspot_rows host app in
      if is_empty rows
      then some (
          shows_empty (codes "No allocation hot spots loaded")
            (codes "Start recording, execute the workload, then press r"))
      else cells_of
          (allocation_cells (allocation_hotspot_rows host app) app.memory.expanded_hotspots
            (most_bytes rows) (max (root_bytes rows) 1))
          (take (height - 3) (drop app.memory.row_offset rows))
        >>= λ cells. some (
            shows_table (codes " Allocation Hot Spots (" ++ (subtitle app ++ focus_advice app))
              (codes "Hot Spot" ∷ codes "Self Allocated Memory" ∷ codes "Allocations" ∷ []) cells)

  unfoldable pub render_memory : ℕ → App F → Option Shown
  unfolding memory_rows delta_cells object_cells cells_of render_allocation_hotspots
  render_memory height app = elim app.selected_pid [
    | none ↦
        some
          (shows_empty (codes "No JVM selected") (codes "Return to Start Center and select a JVM"))
    | some pid ↦
        if same_view app.selected_view live_allocation_hot_spots
        then render_allocation_hotspots height app
        else if is_empty app.memory.rows
        then some (shows_empty (codes "No class histogram loaded") (codes "Press 'r' to refresh"))
        else memory_table height app
  ]

  unfoldable pub allocation_tree_line : AllocationHotSpotRow → Text
  unfolding indent
  allocation_tree_line row =
      (if row.depth == 0 then [] else indent (min row.depth 8) ++ codes "- ")
      ++ (format_count row.allocations
          ++ (codes " allocations  " ++ (row.name ++ (b' ' ∷ format_bytes host row.bytes))))

  unfoldable pub render_allocation_call_tree : App F → Shown
  unfolding allocation_tree_line
  render_allocation_call_tree app =
      let rows = allocation_hotspot_rows host app in
      if is_empty rows
      then shows_empty (codes "No allocation call tree has been recorded")
          (codes "Start recording, execute the workload, then press r")
      else shows_lines (codes " Allocation Call Tree ") (map allocation_tree_line (take 80 rows))
