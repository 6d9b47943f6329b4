-- ===== src/Render/Database.antt =====
-- crates/tui/src/render.rs: the table of database hot spots.
use oprofiler.Base.{
  ℕ, ◌-◌, ◌∷◌, [], ◌++◌, List, Option, some, ◌&&◌, not, if◌then◌else◌, take, drop, min, is_empty,
  map,
}
use oprofiler.Base.Options.{◌>>=◌}
use oprofiler.Base.Sort.{sort_by}
use oprofiler.Base.Text.{Text, codes}
use oprofiler.Model.Floats.{Host}
use oprofiler.Model.Rows.{CpuMethodRow}
use oprofiler.Format.{format_count, format_duration_nano_f}
use oprofiler.App.State.{App, FocusPane, main, sidebar}
use oprofiler.App.Rows.{database_method_label}
use oprofiler.App.Sql.{SqlHotSpotRow, filtered_sql_hotspot_rows, database_methods}
use oprofiler.Render.Texts.{truncate_str, Shown, shows_empty, shows_table}
use oprofiler.Render.Memory.{blocks, cells_of}
use oprofiler.Render.Hotspots.{fold_f_max}

module _ {F : Type 0} (host : Host F) where
  -- The bar of a time, twenty blocks long at the longest time.
  unfoldable pub time_bar : F → F → Text
  unfolding blocks
  time_bar longest ms =
      blocks (min (host.to_u64 (host.mul (host.div ms longest) (host.of_nat 20))) 20)

  abbrev nanos_text : F → Text
  nanos_text ms = format_duration_nano_f host (host.mul ms (host.of_nat 1_000_000))

  abbrev longest_of : List F → F
  longest_of = fold_f_max host (host.div (host.of_nat 1) (host.of_nat 100))

  -- The cells of a statement, and below those of a method; `none` is a panic of a shortened name.
  unfoldable pub statement_cells : F → SqlHotSpotRow F → Option (List Text)
  unfolding time_bar
  statement_cells max_ms row = do
    sql ← truncate_str row.sql 72
    some (
        sql
        ∷ (time_bar max_ms row.total_ms ++ (b' ' ∷ nanos_text row.total_ms))
        ∷ nanos_text row.average_ms
        ∷ format_count row.events
        ∷ [])

  unfoldable pub database_cells : F → CpuMethodRow F → Option (List Text)
  unfolding time_bar
  database_cells max_ms row = do
    name ← truncate_str (database_method_label row) 72
    some (
        name
        ∷ (time_bar max_ms row.self_ms
            ++ (b' '
                ∷ (host.fixed 1 (host.as_f32 (host.mul row.percent (host.of_nat 100)))
                    ++ (codes "% " ++ nanos_text row.self_ms))))
        ∷ format_duration_nano_f host row.average_nanos
        ∷ format_count row.invocations
        ∷ [])

  unfoldable pub database_title : FocusPane → Text
  database_title main =
      codes " Database Hot Spots  [Main: Up/Down PgUp/PgDn=select c=copy TSV Tab=nav] "
  database_title sidebar =
      codes " Database Hot Spots  [Tab focuses this table; Nav: Up/Down switches views] "

  -- The page of a table of database hot spots.
  abbrev database_table :
      {A : Type 0} → ℕ → App F → (A → Option (List Text)) → List A → Option Shown
  database_table height app cells rows =
      cells_of cells (take (height - 3) (drop app.database.row_offset rows)) >>= λ shown. some (
        shows_table (database_title app.focus_pane)
          (codes "Hot Spot" ∷ codes "Time" ∷ codes "Avg Time" ∷ codes "Events" ∷ []) shown)

  -- The methods that stand for statements, those with the longest own time first.
  unfoldable pub sorted_database_methods : App F → List (CpuMethodRow F)
  sorted_database_methods app =
      sort_by (λ a b. host.lt b.self_ms a.self_ms) (database_methods host app)

  unfoldable pub render_database : ℕ → App F → Option Shown
  unfolding statement_cells database_cells database_title sorted_database_methods fold_f_max
      cells_of
  render_database height app =
      let sql_rows = filtered_sql_hotspot_rows host app in
      let rows = sorted_database_methods app in
      if is_empty app.cpu.methods && is_empty app.database.events
      then some (
          shows_empty (codes "No database hot spots recorded")
            (codes "Start CPU recording and refresh after JDBC traffic is executed"))
      else if not (is_empty sql_rows)
      then database_table height app
          (statement_cells (longest_of (map (λ row. row.total_ms) sql_rows))) sql_rows
      else if is_empty rows
      then some (
          shows_empty (codes "No SQL hot spots recorded")
            (codes "Database shows SQL statements only"))
      else database_table height app (database_cells (longest_of (map (λ row. row.self_ms) rows)))
          rows
