-- ===== src/Render/Heap.antt =====
-- crates/tui/src/render.rs: the class tracker and the heap views.
use oprofiler.Base.{
  ℕ, ◌/◌, List, [], ◌∷◌, ◌++◌, Option, none, some, ◌||◌, if◌then◌else◌, ltb, take, min, is_empty,
  map, reverse,
}
use oprofiler.Base.Options.{◌>>=◌, or_else}
use oprofiler.Base.Text.{Text, codes}
use oprofiler.Base.Sort.{sort_by}
use oprofiler.Model.Floats.{Host}
use oprofiler.Model.Rows.{MemoryClassRow, TelemetrySample}
use oprofiler.Model.Views.{
  ViewId, heap_start, heap_classes, heap_biggest_objects, heap_references, same_view, label,
}
use oprofiler.Format.{format_count, format_bytes}
use oprofiler.App.State.{App}
use oprofiler.App.Rows.{filtered_memory_rows}
use oprofiler.Render.Texts.{
  truncate_str, Shown, shows_nothing, shows_empty, shows_lines, shows_table,
}
use oprofiler.Render.Memory.{blocks, cells_of}

abbrev first_of_rows : {A : Type 0} → List A → Option A
first_of_rows [] = none
first_of_rows (x ∷ xs) = some x

module _ {F : Type 0} (host : Host F) where
  abbrev trend_line : TelemetrySample F → Text
  trend_line sample =
      codes "  "
      ++ (host.fixed 0 sample.elapsed_secs
          ++ (codes "s "
              ++ (blocks (min (host.to_u64 (host.div sample.class_count (host.of_nat 10))) 50)
                  ++ (codes " (" ++ (host.fixed 0 sample.class_count ++ codes ")")))))

  abbrev tracker_lines : List (TelemetrySample F) → MemoryClassRow → List Text
  tracker_lines samples tracked =
      (codes "Class Tracker: " ++ tracked.name)
      ∷ (codes "Instances: "
          ++ (format_count tracked.instances
              ++ (codes "   Size: " ++ format_bytes host tracked.bytes)))
      ∷ (if is_empty samples
          then []
          else [] ∷ codes "Instance trend:" ∷ map trend_line (take 10 (reverse samples)))

  abbrev tracker_box : List (TelemetrySample F) → Option MemoryClassRow → Shown
  tracker_box samples none = shows_nothing
  tracker_box samples (some tracked) =
      shows_lines (codes " Class Tracker ") (tracker_lines samples tracked)

  -- The first row that passes the filter is tracked, or the first of all.
  unfoldable pub render_class_tracker : App F → Shown
  unfolding blocks
  render_class_tracker app =
      if is_empty app.memory.rows
      then shows_empty (codes "No class data") (codes "Press 'r' to refresh All Objects")
      else tracker_box app.telemetry_state.samples
          (or_else (first_of_rows (filtered_memory_rows host app)) (first_of_rows app.memory.rows))

  unfoldable pub heap_cells : MemoryClassRow → Option (List Text)
  heap_cells r = do
    name ← truncate_str r.name 60
    some (name ∷ format_count r.instances ∷ format_bytes host r.bytes ∷ [])

  unfoldable pub heap_rows : ViewId → List MemoryClassRow → List MemoryClassRow
  heap_rows view rows =
      if same_view view heap_biggest_objects
      then sort_by (λ a b. ltb b.bytes a.bytes) rows
      else rows

  abbrev heap_table : ℕ → App F → Option Shown
  heap_table height app =
      if is_empty app.heap_snapshots || is_empty app.memory.rows
      then some (
          shows_empty (codes "No snapshot taken")
            (codes "Switch to Heap Start and take a snapshot first"))
      else cells_of heap_cells (take (height / 2) (heap_rows app.selected_view app.memory.rows))
        >>= λ rows. some (
            shows_table (codes " Heap " ++ (label app.selected_view ++ codes " "))
              (codes "Name" ∷ codes "Instances" ∷ codes "Size" ∷ []) rows)

  -- `none` is a panic of a shortened name.
  unfoldable pub render_heap : ℕ → App F → Option Shown
  unfolding heap_cells heap_rows cells_of
  render_heap height app = elim app.selected_view [
    | heap_start ↦ some (
        shows_lines (codes " Heap Walker ") (
          codes "Heap Walker"
          ∷ []
          ∷ codes "No snapshot has been taken."
          ∷ []
          ∷ codes "Press 'm' to mark the current heap baseline"
          ∷ codes "(baseline comparison uses the live class histogram)"
          ∷ []))
    | heap_classes ↦ heap_table height app
    | heap_biggest_objects ↦ heap_table height app
    | heap_references ↦ some (
        shows_empty (codes "Object references not yet implemented")
          (codes "Heap Walker references view"))
    | _ ↦ some shows_nothing
  ]
