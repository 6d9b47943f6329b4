-- ===== src/App/Sql.antt =====
-- app.rs: the database table, and the tables as text for the clipboard.
use oprofiler.Base.{
  ℕ, ◌+◌, not, List, [], ◌∷◌, ◌++◌, Option, none, some, length, is_empty, keep, map, ltb, ◌==◌,
  if◌then◌else◌, min,
}
use oprofiler.Base.Text.{Text, codes, text_eq, join, to_decimal}
use oprofiler.Base.Maps.{lookup, insert}
use oprofiler.Base.Sort.{sort_by}
use oprofiler.Model.Floats.{Host}
use oprofiler.Model.Views.{ViewId, cpu_hot_spots, live_allocation_hot_spots, databases_jdbc}
use oprofiler.Model.Rows.{AllocationHotSpotRow, CpuMethodRow, CpuMethodEdgeRow, DatabaseEvent}
use oprofiler.Format.{format_bytes, format_duration_nano_f}
use oprofiler.App.State.{App}
use oprofiler.App.Rows.{
  passes_filter, is_database_method, database_method_label, shown_children, filtered_cpu_rows,
  visible_allocation_hotspot_rows,
}

pub record SqlHotSpotRow (F : Type 0) : Type 0 where
  pub sql : Text
  pub total_ms : F
  pub average_ms : F
  pub events : ℕ

-- The cells of a line, joined by tabs.
abbrev tabbed : Text → Text → Text → Text → Text
tabbed a b c d = a ++ (9 ∷ b ++ (9 ∷ c ++ (9 ∷ d)))

module _ {F : Type 0} (host : Host F) where
  abbrev zero_f : F
  zero_f = host.of_nat 0

  abbrev or_zero : Option F → F
  or_zero none = zero_f
  or_zero (some x) = x

  abbrev totals_of : Option (F × ℕ) → F × ℕ
  totals_of none = (zero_f, 0)
  totals_of (some t) = t

  -- One event's share in the map from statements to total time and count.
  unfoldable pub add_sql_event : List (Text × (F × ℕ)) → DatabaseEvent F → List (Text × (F × ℕ))
  add_sql_event by_sql event =
      let entry = totals_of (lookup text_eq event.message by_sql) in
      let duration = host.f_max (or_zero event.duration_ms) zero_f in
      if not (text_eq event.operation (codes "SQL"))
      then by_sql
      else insert text_eq event.message (host.add entry.0 duration, entry.1 + 1) by_sql

  unfoldable pub sum_sql_events :
      List (Text × (F × ℕ)) → List (DatabaseEvent F) → List (Text × (F × ℕ))
  unfolding add_sql_event
  sum_sql_events by_sql [] = by_sql
  sum_sql_events by_sql (event ∷ rest) = sum_sql_events (add_sql_event by_sql event) rest

  unfoldable pub sql_row : Text × (F × ℕ) → SqlHotSpotRow F
  sql_row (sql, (total_ms, events)) = record {
    sql = sql;
    total_ms = total_ms;
    average_ms = if ltb 0 events then host.div total_ms (host.of_nat events) else zero_f;
    events = events;
  }

  -- A map is listed in the order in which its keys came in; the order among equal totals is open.
  unfoldable pub aggregate_sql_hotspots : List (DatabaseEvent F) → List (SqlHotSpotRow F)
  unfolding sum_sql_events sql_row
  aggregate_sql_hotspots events =
      sort_by (λ a b. host.lt b.total_ms a.total_ms) (map sql_row (sum_sql_events [] events))

  unfoldable pub filtered_sql_hotspot_rows : App F → List (SqlHotSpotRow F)
  unfolding aggregate_sql_hotspots
  filtered_sql_hotspot_rows app =
      let lowered = host.to_lowercase app.filter_input in
      keep (λ row. passes_filter lowered (host.to_lowercase row.sql))
        (aggregate_sql_hotspots app.database.events)

  unfoldable pub database_methods : App F → List (CpuMethodRow F)
  database_methods app =
      let lowered = host.to_lowercase app.filter_input in
      keep (λ row. passes_filter lowered (host.to_lowercase (database_method_label row)))
        (keep is_database_method app.cpu.methods)

  unfoldable pub database_row_count : App F → ℕ
  unfolding filtered_sql_hotspot_rows database_methods
  database_row_count app =
      let sql_rows = filtered_sql_hotspot_rows app in
      if not (is_empty sql_rows) then length sql_rows else length (database_methods app)

  abbrev ms_text : F → Text
  ms_text ms = format_duration_nano_f host (host.mul ms (host.of_nat 1_000_000))

  unfoldable pub child_line : CpuMethodEdgeRow × CpuMethodRow F → Text
  child_line (edge, child) =
      tabbed child.method (format_duration_nano_f host (host.of_nat edge.total_duration_nano))
        (format_duration_nano_f host (
          if ltb 0 edge.call_count
          then host.div (host.of_nat edge.total_duration_nano) (host.of_nat edge.call_count)
          else zero_f))
        (to_decimal edge.call_count)

  unfoldable pub hotspot_lines : App F → List (CpuMethodRow F) → List Text
  unfolding child_line
  hotspot_lines app [] = []
  hotspot_lines app (row ∷ rest) =
      tabbed row.method (ms_text row.self_ms) (format_duration_nano_f host row.average_nanos)
        (to_decimal row.invocations)
      ∷ (map child_line (shown_children app row) ++ hotspot_lines app rest)

  unfoldable pub cpu_hotspots_copy_text : App F → Option Text
  unfolding hotspot_lines
  cpu_hotspots_copy_text app =
      let lines =
        tabbed (codes "Hot Spot") (codes "Self Time") (codes "Avg Time") (codes "Events")
        ∷ hotspot_lines app (filtered_cpu_rows host app) in
      if ltb 1 (length lines) then some (join (10 ∷ []) lines) else none

  abbrev spaces : ℕ → Text
  spaces ℕ.zero = []
  spaces (ℕ.suc n) = 32 ∷ 32 ∷ spaces n

  unfoldable pub allocation_line : AllocationHotSpotRow → Text
  allocation_line row =
      let prefix = if row.depth == 0 then [] else spaces (min row.depth 8) ++ codes "- " in
      (prefix ++ row.name) ++ (9 ∷ format_bytes host row.bytes ++ (9 ∷ to_decimal row.allocations))

  unfoldable pub allocation_hotspots_copy_text : App F → Option Text
  unfolding allocation_line
  allocation_hotspots_copy_text app =
      let rows = visible_allocation_hotspot_rows host app in
      if is_empty rows
      then none
      else some (
          join (10 ∷ []) (
            (codes "Hot Spot" ++ (9 ∷ codes "Self Allocated Memory" ++ (9 ∷ codes "Allocations")))
            ∷ map allocation_line rows))

  abbrev sql_header : Text
  sql_header = tabbed (codes "Hot Spot") (codes "Time") (codes "Avg Time") (codes "Events")

  unfoldable pub sql_line : SqlHotSpotRow F → Text
  sql_line row =
      tabbed row.sql (ms_text row.total_ms) (ms_text row.average_ms) (to_decimal row.events)

  unfoldable pub database_line : CpuMethodRow F → Text
  database_line row =
      tabbed (database_method_label row) (ms_text row.self_ms)
        (format_duration_nano_f host row.average_nanos) (to_decimal row.invocations)

  unfoldable pub database_hotspots_copy_text : App F → Option Text
  unfolding sql_line database_line filtered_sql_hotspot_rows database_methods
  database_hotspots_copy_text app =
      let sql_rows = filtered_sql_hotspot_rows app in
      let rows = sort_by (λ a b. host.lt b.self_ms a.self_ms) (database_methods app) in
      if not (is_empty sql_rows)
      then some (join (10 ∷ []) (sql_header ∷ map sql_line sql_rows))
      else if is_empty rows
      then none
      else some (join (10 ∷ []) (sql_header ∷ map database_line rows))

  abbrev copy_text_of : App F → ViewId → Option Text
  copy_text_of app cpu_hot_spots = cpu_hotspots_copy_text app
  copy_text_of app live_allocation_hot_spots = allocation_hotspots_copy_text app
  copy_text_of app databases_jdbc = database_hotspots_copy_text app
  copy_text_of app _ = none

  unfoldable pub current_view_copy_text : App F → Option Text
  current_view_copy_text app = copy_text_of app app.selected_view
