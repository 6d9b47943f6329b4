-- ===== src/App/Update.antt =====
-- app.rs and event.rs: the periodic work, the keys that move through the lists, and the dispatch of
-- a key. `none` stands for a panic, at an index out of bounds.
use oprofiler.Base.{
  ℕ, ◌-◌, ◌*◌, Bool, true, false, not, ◌&&◌, ℤ, Option, none, some, length, is_empty, leb, max,
  if◌then◌else◌, eq_ℤ, is_nonneg, unsigned_abs,
}
use oprofiler.Base.Maps.{remove}
use oprofiler.Model.Floats.{Host}
use oprofiler.Model.Views.{
  same_view, start_center, cpu_hot_spots, live_allocation_hot_spots, databases_jdbc,
}
use oprofiler.App.State.{App, Now, second, current_category_views, default_page_rows}
use oprofiler.App.Rows.{
  visible_hotspot_row_count, selected_hotspot_method_id, filtered_memory_rows,
  visible_allocation_hotspot_rows, selected_allocation_hotspot_node_id,
}
use oprofiler.App.Sql.{database_row_count}
use oprofiler.App.Selection.{
  move_index, keep_visible, times, is_memory_view, is_main, next_category, prev_category,
  navigate_sidebar_down, navigate_sidebar_up, show_item, next_jvm, prev_jvm,
  toggle_selected_hotspot_expanded, toggle_selected_allocation_hotspot_expanded,
}
use oprofiler.App.Session.{
  threads_view, start_selected_jvm_session, start_initial_cpu_recording, spawn_refresh_telemetry,
  spawn_fetch_cpu_instrumentation, spawn_refresh_live_memory, spawn_capture_thread_dump,
}

abbrev is_none : {A : Type 0} → Option A → Bool
is_none none = true
is_none (some a) = false

abbrev is_some : {A : Type 0} → Option A → Bool
is_some none = false
is_some (some a) = true

module _ {F : Type 0} where
  -- Whether the keys act on the rows of the CPU table, or of the allocation table.
  abbrev in_hotspots : App F → Bool
  in_hotspots app =
      is_main app.focus_pane
      && same_view app.selected_view cpu_hot_spots
      && not (is_empty app.cpu.methods)

  abbrev in_allocations : App F → Bool
  in_allocations app =
      is_main app.focus_pane && same_view app.selected_view live_allocation_hot_spots

module _ {F : Type 0} (host : Host F) where
  unfoldable pub navigate_left : App F → App F
  navigate_left app =
      if in_hotspots app
      then elim (selected_hotspot_method_id host app) [
        | none ↦ app
        | some id ↦ record app {
          cpu = record app.cpu { expanded_hotspots = remove eq_ℤ id app.cpu.expanded_hotspots };
        }
      ]
      else if in_allocations app
      then elim (selected_allocation_hotspot_node_id host app) [
        | none ↦ app
        | some id ↦ record app {
          memory = record app.memory {
            expanded_hotspots = remove eq_ℤ id app.memory.expanded_hotspots;
          };
        }
      ]
      else prev_category app

  unfoldable pub navigate_right : App F → App F
  navigate_right app =
      if in_hotspots app
      then toggle_selected_hotspot_expanded host app
      else if in_allocations app
      then toggle_selected_allocation_hotspot_expanded host app
      else next_category app

module _ {F : Type 0} (host : Host F) (now : Now) where
  -- The first test of `auto_update` and each of its four parts.
  unfoldable pub start_if_awaited : App F → App F
  start_if_awaited app =
      if app.pending_initial_cpu_start && not (same_view app.selected_view start_center)
      then start_initial_cpu_recording now (record app { pending_initial_cpu_start = false })
      else app

  unfoldable pub tick : App F → App F
  tick app =
      let ticked : App F = record app { last_tick = now.instant } in
      let refreshed =
        if is_some ticked.selected_pid && is_none ticked.telemetry_query
        then spawn_refresh_telemetry host now ticked
        else ticked in
      if leb (app.auto_update_secs * second) (now.instant - app.last_tick)
      then (if refreshed.cpu.recording && is_none refreshed.thread_query
          then spawn_fetch_cpu_instrumentation refreshed
          else refreshed)
      else app

  unfoldable pub load_memory_once : App F → App F
  load_memory_once app =
      let loaded : App F = record app { memory = record app.memory { loaded_once = true } } in
      if not app.memory.loaded_once && is_some app.selected_pid && is_memory_view app
      then (if is_none loaded.memory_query then spawn_refresh_live_memory now loaded else loaded)
      else app

  unfoldable pub refresh_threads : App F → App F
  refresh_threads app =
      let dated : App F = record app { last_thread_refresh = now.instant } in
      if threads_view app.selected_view && leb (5 * second) (now.instant - app.last_thread_refresh)
      then (if is_none dated.thread_query then spawn_capture_thread_dump now dated else dated)
      else app

  unfoldable pub auto_update : App F → App F
  unfolding start_if_awaited tick load_memory_once refresh_threads
  auto_update app =
      if is_none app.selected_pid && not app.cpu.recording
      then app
      else refresh_threads (load_memory_once (tick (start_if_awaited app)))

  abbrev move_hotspot : ℤ → App F → App F
  move_hotspot delta app =
      let row =
        move_index app.cpu.selected_hotspot_idx delta (visible_hotspot_row_count host app - 1) in
      record app {
        cpu = record app.cpu {
          selected_hotspot_idx = row;
          row_offset = keep_visible app.cpu.row_offset row default_page_rows;
        };
      }

  -- The memory tables share their cursor.
  abbrev move_memory : ℕ → ℤ → App F → App F
  move_memory rows delta app =
      let row = move_index app.memory.selected_row_idx delta (rows - 1) in
      record app {
        memory = record app.memory {
          selected_row_idx = row;
          row_offset = keep_visible app.memory.row_offset row default_page_rows;
        };
      }

  abbrev move_database : ℤ → App F → App F
  move_database delta app =
      let row = move_index app.database.selected_row_idx delta (database_row_count host app - 1) in
      record app {
        database = record app.database {
          selected_row_idx = row;
          row_offset = keep_visible app.database.row_offset row default_page_rows;
        };
      }

  unfoldable pub move_selection : ℤ → App F → Option (App F)
  move_selection delta app =
      if same_view app.selected_view start_center
      then some (
          if is_nonneg delta
          then times (max (unsigned_abs delta) 1) (next_jvm now) app
          else times (max (unsigned_abs delta) 1) (prev_jvm now) app)
      else if is_main app.focus_pane
          && same_view app.selected_view cpu_hot_spots
          && not (is_empty app.cpu.methods)
      then some (move_hotspot delta app)
      else if is_main app.focus_pane && same_view app.selected_view live_allocation_hot_spots
      then some (move_memory (length (visible_allocation_hotspot_rows host app)) delta app)
      else if is_main app.focus_pane && is_memory_view app
      then some (move_memory (length (filtered_memory_rows host app)) delta app)
      else if is_main app.focus_pane && same_view app.selected_view databases_jdbc
      then some (move_database delta app)
      else if is_nonneg delta
      then navigate_sidebar_down app
      else navigate_sidebar_up app

  unfoldable pub select_current : App F → Option (App F)
  select_current app =
      if same_view app.selected_view start_center
      then some (start_selected_jvm_session host now app)
      else if in_hotspots app
      then some (toggle_selected_hotspot_expanded host app)
      else if in_allocations app
      then some (toggle_selected_allocation_hotspot_expanded host app)
      else if is_empty (current_category_views app)
      then some app
      else show_item app
