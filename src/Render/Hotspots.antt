-- ===== src/Render/Hotspots.antt =====
-- crates/tui/src/render.rs: the table of CPU hot spots.
pub mod Page
use oprofiler.Base.{
  ℕ, ◌+◌, ◌-◌, ◌∷◌, [], ◌++◌, List, Option, none, some, Bool, ◌&&◌, if◌then◌else◌, ltb, leb, take,
  min, length, is_empty, map, eq_ℤ,
}
use oprofiler.Base.Options.{◌>>=◌}
use oprofiler.Base.Maps.{member}
use oprofiler.Base.Text.{Text, codes}
use oprofiler.Model.Floats.{Host}
use oprofiler.Model.Rows.{CpuMethodRow, CpuMethodEdgeRow}
use oprofiler.Format.{format_count, format_duration_nano_f}
use oprofiler.App.State.{App, FocusPane, main, sidebar}
use oprofiler.App.Rows.{hotspot_children, shown_children, filtered_cpu_rows}
use oprofiler.Render.Texts.{truncate_str, Shown, shows_empty, shows_table}
use oprofiler.Render.Memory.{blocks, cells_of}

-- A line of the table: a method with its marker, or a callee below its caller.
pub data HotspotLine (F : Type 0) : Type 0 where
  method_line : Text → CpuMethodRow F → HotspotLine F
  callee_line : CpuMethodRow F → CpuMethodEdgeRow × CpuMethodRow F → HotspotLine F

module _ {F : Type 0} where
  unfoldable pub row_marker : App F → CpuMethodRow F → Text
  row_marker app row = elim row.method_id [
    | none ↦ codes "  "
    | some id ↦
        if is_empty (hotspot_children app id)
        then codes "  "
        else if member eq_ℤ id app.cpu.expanded_hotspots
        then codes "v "
        else codes "> "
  ]

  -- The lines that a row takes: its own, and at most twelve of its callees where it is expanded.
  unfoldable pub lines_of_row : App F → CpuMethodRow F → List (HotspotLine F)
  unfolding row_marker
  lines_of_row app row =
      method_line (row_marker app row) row
      ∷ map (callee_line row) (take 12 (shown_children app row))

  -- The lines collected so far, with the place of the next line; a line is pushed where it is in
  -- sight.
  unfoldable pub push_lines :
      ℕ → ℕ → List (HotspotLine F) → List (HotspotLine F) × ℕ → List (HotspotLine F) × ℕ
  push_lines offset max_rows [] state = state
  push_lines offset max_rows (line ∷ rest) (visible_rows, visible_idx) =
      push_lines offset max_rows rest (
        if leb offset visible_idx && ltb (length visible_rows) max_rows
            then visible_rows ++ line ∷ []
            else visible_rows,
        visible_idx + 1,
      )

  -- The loop over the rows, which stops when the page is full and the selected line is behind.
  unfoldable pub collect_lines :
      App F → ℕ → List (CpuMethodRow F) → List (HotspotLine F) × ℕ → List (HotspotLine F)
  unfolding push_lines lines_of_row
  collect_lines app max_rows [] state = state.0
  collect_lines app max_rows (row ∷ rest) state =
      let pushed = push_lines app.cpu.row_offset max_rows (lines_of_row app row) state in
      let later = collect_lines app max_rows rest pushed in
      if leb max_rows (length pushed.0) && ltb app.cpu.selected_hotspot_idx pushed.1
      then pushed.0
      else later

module _ {F : Type 0} (host : Host F) where
  -- `fold` with `f32::max` or `f64::max`.
  unfoldable pub fold_f_max : F → List F → F
  fold_f_max most [] = most
  fold_f_max most (x ∷ rest) = fold_f_max (host.f_max most x) rest

  abbrev single : F → F
  single = host.as_f32

  abbrev hundredth : F
  hundredth = host.div (host.of_nat 1) (host.of_nat 100)

  abbrev pub edge_percent : CpuMethodRow F → CpuMethodEdgeRow → F
  edge_percent r edge =
      if host.lt (host.of_nat 0) r.total_ms
      then host.clamp
          (host.mul
            (host.div (host.of_nat edge.total_duration_nano)
              (host.mul r.total_ms (host.of_nat 1_000_000)))
            (host.of_nat 100))
          (host.of_nat 0) (host.div (host.of_nat 9999) (host.of_nat 10))
      else host.of_nat 0

  abbrev pub avg_nanos : CpuMethodEdgeRow → F
  avg_nanos edge =
      if ltb 0 edge.call_count
      then host.div (host.of_nat edge.total_duration_nano) (host.of_nat edge.call_count)
      else host.of_nat 0

  -- The cells of a line; `none` is a panic of a shortened name.
  unfoldable pub hotspot_cells : F → HotspotLine F → Option (List Text)
  unfolding blocks
  hotspot_cells max_pct (method_line marker r) = do
    name ← truncate_str (marker ++ r.method) 72
    let bar_len =
        host.to_u64 (single (host.mul (single (host.div r.percent max_pct)) (host.of_nat 20)))
    some (
        name
        ∷ (blocks (min bar_len 20)
            ++ (b' '
                ∷ (host.fixed 1 (single (host.mul r.percent (host.of_nat 100)))
                    ++ (codes "% "
                        ++ format_duration_nano_f host
                            (host.mul r.self_ms (host.of_nat 1_000_000))))))
        ∷ format_duration_nano_f host r.average_nanos
        ∷ format_count r.invocations
        ∷ [])
  hotspot_cells max_pct (callee_line r (edge, child)) = do
    name ←
        truncate_str
          (codes "  - "
            ++ (host.fixed 1 (edge_percent r edge)
                ++ (codes "% - "
                    ++ (format_duration_nano_f host (host.of_nat edge.total_duration_nano)
                        ++ (codes " - "
                            ++ (format_count edge.call_count
                                ++ (codes " hot spot inv. " ++ child.method)))))))
          82
    some (
        name
        ∷ []
        ∷ format_duration_nano_f host (avg_nanos edge)
        ∷ format_count edge.call_count
        ∷ [])

  abbrev hotspot_title : FocusPane → Text
  hotspot_title main =
      codes
        " CPU Hot Spots  [Main: Up/Down PgUp/PgDn=select Enter/Right=expand Left=collapse c=copy TSV Tab=nav] "
  hotspot_title sidebar =
      codes " CPU Hot Spots  [Tab focuses this table; Nav: Up/Down switches views] "

  unfoldable pub visible_lines : ℕ → App F → List (HotspotLine F)
  unfolding collect_lines
  visible_lines height app = collect_lines app (height - 3) (filtered_cpu_rows host app) ([], 0)

  abbrev hotspot_table : ℕ → App F → Option Shown
  hotspot_table height app =
      let max_pct =
        fold_f_max (single hundredth) (map (λ r. r.percent) (filtered_cpu_rows host app)) in
      cells_of (hotspot_cells max_pct) (visible_lines height app) >>= λ cells. some (
        shows_table (hotspot_title app.focus_pane)
          (codes "Hot Spot" ∷ codes "Self Time" ∷ codes "Avg Time" ∷ codes "Events" ∷ []) cells)

  unfoldable pub render_cpu_hotspots : ℕ → App F → Option Shown
  unfolding hotspot_cells fold_f_max visible_lines cells_of
  render_cpu_hotspots height app =
      if is_empty app.cpu.methods
      then some (
          shows_empty (codes "No CPU data recorded") (
            if app.cpu.recording
            then codes "Recording is active. Fetching CPU Hot Spots..."
            else codes "Press 's' to start recording"))
      else if is_empty (filtered_cpu_rows host app)
      then some (
          shows_empty (codes "No CPU method hot spots recorded")
            (codes "SQL hot spots are shown in Databases"))
      else hotspot_table height app
