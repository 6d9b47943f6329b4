-- ===== src/App/Rows.antt =====
-- app.rs: the CPU and memory tables as the filter and the expanded rows show them.
pub mod Listed
use oprofiler.Base.{
  ℕ, zero, suc, ◌+◌, ◌-◌, Bool, true, false, not, ◌&&◌, ◌||◌, ℤ, List, [], ◌∷◌, ◌++◌, Option, none,
  some, length, get_elem?, is_empty, keep, any_of, filter_map, ltb, ◌==◌, if◌then◌else◌, eq_ℤ,
  is_positive, pos_part, as_i32,
}
use oprofiler.Base.Options.{◌>>=◌, unwrap_or}
use oprofiler.Base.Text.{Text, codes, text_eq, contains_text}
use oprofiler.Base.Maps.{lookup, insert, collect, member}
use oprofiler.Base.Sort.{sort_by}
use oprofiler.Model.Floats.{Host}
use oprofiler.Model.Rows.{MemoryClassRow, AllocationHotSpotRow, CpuMethodRow, CpuMethodEdgeRow}
use oprofiler.App.State.{App, Histogram}

-- Equality of optional ids.
unfoldable pub same_id : Option ℤ → Option ℤ → Bool
same_id none none = true
same_id (some a) (some b) = eq_ℤ a b
same_id _ _ = false

-- A filter passes all texts if it is empty, and those that contain it otherwise.
unfoldable pub passes_filter : Text → Text → Bool
passes_filter filter_text text = is_empty filter_text || contains_text text filter_text

module _ {F : Type 0} where
  unfoldable pub is_database_method : CpuMethodRow F → Bool
  is_database_method row = text_eq row.class_name (codes "SQL")

  unfoldable pub database_method_label : CpuMethodRow F → Text
  database_method_label row =
      if text_eq row.class_name (codes "SQL") then row.method_name else row.method

  -- The pairs that become the map from ids to rows.
  unfoldable pub with_id : CpuMethodRow F → Option (ℤ × CpuMethodRow F)
  with_id row = elim row.method_id [ none ↦ none | some id ↦ some (id, row) ]

  unfoldable pub edge_child :
      List (ℤ × CpuMethodRow F) → CpuMethodEdgeRow → Option (CpuMethodEdgeRow × CpuMethodRow F)
  edge_child by_id edge = elim (lookup eq_ℤ edge.to_method_id by_id) [
    | none ↦ none
    | some row ↦ some (edge, row)
  ]

  unfoldable pub hotspot_children : App F → ℤ → List (CpuMethodEdgeRow × CpuMethodRow F)
  unfolding edge_child with_id
  hotspot_children app method_id =
      let methods_by_id =
        collect eq_ℤ []
          (filter_map with_id (keep (λ row. not (is_database_method row)) app.cpu.methods)) in
      sort_by (λ a b. ltb b.0.total_duration_nano a.0.total_duration_nano)
        (filter_map (edge_child methods_by_id)
          (keep (λ edge. eq_ℤ edge.from_method_id method_id) app.cpu.method_edges))

  -- The rows that a hot spot takes on the screen below its own line.
  unfoldable pub shown_children : App F → CpuMethodRow F → List (CpuMethodEdgeRow × CpuMethodRow F)
  shown_children app row = elim row.method_id [
    | none ↦ []
    | some id ↦ if member eq_ℤ id app.cpu.expanded_hotspots then hotspot_children app id else []
  ]

  -- The loop over the children of an expanded row: whether one is the target, and the next place.
  unfoldable pub scan_children : ℕ → ℕ → List (CpuMethodEdgeRow × CpuMethodRow F) → Bool × ℕ
  scan_children target idx [] = (false, idx)
  scan_children target idx (child ∷ rest) =
      let next = scan_children target (idx + 1) rest in if idx == target then (true, idx) else next

  -- The loop of `selected_hotspot_method_id`.
  unfoldable pub scan_rows : App F → ℕ → ℕ → List (CpuMethodRow F) → Option ℤ
  unfolding shown_children scan_children
  scan_rows app target idx [] = none
  scan_rows app target idx (row ∷ rest) =
      let (hit, next) = scan_children target (idx + 1) (shown_children app row) in
      let later = scan_rows app target next rest in
      if idx == target then row.method_id else if hit then row.method_id else later

  -- The loop of `visible_hotspot_row_count`.
  unfoldable pub count_rows : App F → ℕ → List (CpuMethodRow F) → ℕ
  unfolding shown_children
  count_rows app count [] = count
  count_rows app count (row ∷ rest) =
      count_rows app (count + 1 + length (shown_children app row)) rest

-- `allocation_children_by_parent`: the rows grouped by parent, each group by falling size.
abbrev pub RowMap : Type 0
RowMap = List (Option ℤ × List AllocationHotSpotRow)

abbrev pub rows_under : Option (List AllocationHotSpotRow) → List AllocationHotSpotRow
rows_under none = []
rows_under (some rows) = rows

unfoldable pub group_by_parent : RowMap → List AllocationHotSpotRow → RowMap
group_by_parent m [] = m
group_by_parent m (row ∷ rest) =
    group_by_parent
      (insert same_id row.parent_id (rows_under (lookup same_id row.parent_id m) ++ row ∷ []) m)
      rest

abbrev pub bigger_first : AllocationHotSpotRow → AllocationHotSpotRow → Bool
bigger_first a b = ltb b.bytes a.bytes

unfoldable pub sort_groups : RowMap → RowMap
sort_groups [] = []
sort_groups ((parent, rows) ∷ rest) = (parent, sort_by bigger_first rows) ∷ sort_groups rest

unfoldable pub allocation_children_by_parent : List AllocationHotSpotRow → RowMap
unfolding group_by_parent sort_groups
allocation_children_by_parent rows = sort_groups (group_by_parent [] rows)

abbrev pub has_child : List AllocationHotSpotRow → ℤ → Bool
has_child rows id = any_of (λ row. same_id row.parent_id (some id)) rows

-- The loop over the children of one row; `descend` is the recursive call.
unfoldable pub append_children :
    (ℤ → List AllocationHotSpotRow → Option (List AllocationHotSpotRow))
    → List AllocationHotSpotRow
    → List ℤ
    → List AllocationHotSpotRow
    → List AllocationHotSpotRow
    → Option (List AllocationHotSpotRow)
append_children descend all_rows expanded [] visible = some visible
append_children descend all_rows expanded (row ∷ rest) visible =
    let pushed = visible ++ row ∷ [] in
    let deeper = descend row.node_id pushed in
    (if member eq_ℤ row.node_id expanded && has_child all_rows row.node_id
      then deeper
      else some pushed)
    >>= λ visible. append_children descend all_rows expanded rest visible

-- `append_visible_allocation_rows`, whose calls nest without a bound in the code; `none` where they nest
-- deeper than `depth`.
unfoldable pub append_visible :
    ℕ
    → Option ℤ
    → List AllocationHotSpotRow
    → RowMap
    → List ℤ
    → List AllocationHotSpotRow
    → Option (List AllocationHotSpotRow)
unfolding append_children
append_visible zero parent all_rows children expanded visible = none
append_visible (suc depth) parent all_rows children expanded visible =
    elim (lookup same_id parent children) [
      | none ↦ some visible
      | some rows ↦
          append_children (λ id out. append_visible depth (some id) all_rows children expanded out)
            all_rows expanded rows visible
    ]

-- What a class row grew by: since the mark, since the last histogram, or in all.
unfoldable pub grown : Option Histogram → MemoryClassRow → ℕ × ℕ
grown (some marked) row = elim (lookup text_eq row.name marked) [
  | none ↦ (row.bytes, row.instances)
  | some (old_instances, old_bytes) ↦ (row.bytes - old_bytes, row.instances - old_instances)
]
grown none row =
    if is_positive row.delta_bytes || is_positive row.delta_instances
    then (pos_part row.delta_bytes, pos_part row.delta_instances)
    else (row.bytes, row.instances)

unfoldable pub class_hotspot : Option Histogram → MemoryClassRow → Option AllocationHotSpotRow
unfolding grown
class_hotspot baseline row =
    let (bytes, allocations) = grown baseline row in
    if bytes == 0 && allocations == 0
    then none
    else some (record {
      node_id = as_i32 row.rank;
      parent_id = none;
      depth = 0;
      name = row.name;
      allocated_type = [];
      bytes = bytes;
      allocations = allocations;
    })

module _ {F : Type 0} (host : Host F) where
  unfoldable pub filtered_cpu_rows : App F → List (CpuMethodRow F)
  filtered_cpu_rows app =
      let lowered : Text =
        if not (is_empty app.filter_input) then host.to_lowercase app.filter_input else [] in
      keep (λ row. passes_filter lowered (host.to_lowercase row.method))
        (keep (λ row. not (is_database_method row)) app.cpu.methods)

  unfoldable pub visible_hotspot_row_count : App F → ℕ
  unfolding filtered_cpu_rows count_rows
  visible_hotspot_row_count app = count_rows app 0 (filtered_cpu_rows app)

  unfoldable pub selected_hotspot_method_id : App F → Option ℤ
  unfolding filtered_cpu_rows scan_rows
  selected_hotspot_method_id app =
      scan_rows app app.cpu.selected_hotspot_idx 0 (filtered_cpu_rows app)

  unfoldable pub filtered_memory_rows : App F → List MemoryClassRow
  filtered_memory_rows app =
      let lowered = host.to_lowercase app.filter_input in
      keep (λ row. passes_filter lowered (host.to_lowercase row.name)) app.memory.rows

  unfoldable pub allocation_hotspot_rows : App F → List AllocationHotSpotRow
  unfolding filtered_memory_rows class_hotspot
  allocation_hotspot_rows app =
      if not (is_empty app.memory.allocation_hotspots)
      then (let lowered = host.to_lowercase app.filter_input in
          keep
            (λ row.
              is_empty lowered
              || contains_text (host.to_lowercase row.name) lowered
              || contains_text (host.to_lowercase row.allocated_type) lowered)
            app.memory.allocation_hotspots)
      else sort_by bigger_first
          (filter_map (class_hotspot app.memory.marked_heap) (filtered_memory_rows app))

  -- The visible rows; `none` where the calls nest deeper than there are rows, which happens only if rows
  -- run in a circle, and then the code does not end.
  unfoldable pub listed_rows : App F → Option (List AllocationHotSpotRow)
  unfolding append_visible allocation_hotspot_rows
  listed_rows app =
      let rows = allocation_hotspot_rows app in
      if not (is_empty app.filter_input)
      then some rows
      else append_visible (suc (length rows)) none rows (allocation_children_by_parent rows)
          app.memory.expanded_hotspots []

  -- The visible rows where the listing ends; what builds on it speaks of the code only then.
  unfoldable pub visible_allocation_hotspot_rows : App F → List AllocationHotSpotRow
  unfolding listed_rows
  visible_allocation_hotspot_rows app = unwrap_or (listed_rows app) []

  unfoldable pub allocation_hotspot_has_children : App F → ℤ → Bool
  unfolding allocation_hotspot_rows
  allocation_hotspot_has_children app node_id = has_child (allocation_hotspot_rows app) node_id

  unfoldable pub selected_allocation_hotspot_node_id : App F → Option ℤ
  unfolding visible_allocation_hotspot_rows
  selected_allocation_hotspot_node_id app =
      elim (get_elem? (visible_allocation_hotspot_rows app) app.memory.selected_row_idx) [
        | none ↦ none
        | some row ↦ some row.node_id
      ]
