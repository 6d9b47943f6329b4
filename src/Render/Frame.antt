-- ===== src/Render/Frame.antt =====
-- crates/tui/src/render.rs: the tool bar, the side bar, the status bar, the start center, and which
-- view the content is.
use oprofiler.Base.{
  ℕ, ◌+◌, ◌/◌, ◌%◌, List, [], ◌∷◌, ◌++◌, Option, none, some, false, ◌||◌, if◌then◌else◌, ltb, ◌==◌,
  is_empty, any_of,
}
use oprofiler.Base.Options.{◌>>=◌}
use oprofiler.Base.Text.{Text, codes, to_decimal}
use oprofiler.Model.Floats.{Host}
use oprofiler.Model.Rows.{JvmTarget, OperationLog}
use oprofiler.Model.Views.{
  ViewId, start_center, tele_overview, tele_memory, tele_gc, tele_classes, tele_threads,
  tele_cpu_load, live_all_objects, live_recorded_objects, live_allocation_call_tree,
  live_allocation_hot_spots, live_class_tracker, heap_start, heap_classes, heap_biggest_objects,
  heap_references, cpu_call_tree, cpu_hot_spots, cpu_call_graph, cpu_outliers, cpu_complexity,
  cpu_tracer, threads_history, threads_monitor, threads_dumps, databases_jdbc, databases_jpa,
  databases_mongo, databases_cassandra, CategoryEntry, categories, same_view, label,
}
use oprofiler.App.State.{
  App, Now, sidebar, main, InputMode, normal, filter, active_recording_count, elapsed_secs,
}
use oprofiler.Render.Memory.{cells_of}
use oprofiler.Render.Texts.{truncate_str, Shown, shows_empty, shows_lines, shows_table}

-- The functions that draw the content.
pub data Content : Type 0 where
  start_center_content telemetry_content memory_content allocation_tree_content
        class_tracker_content heap_content call_tree_content hotspots_content call_graph_content
        outliers_content complexity_content tracer_content threads_content dumps_content
        database_content probe_content help_content :
      Content

unfoldable pub content_of_view : ViewId → Content
content_of_view start_center = start_center_content
content_of_view tele_overview = telemetry_content
content_of_view tele_memory = telemetry_content
content_of_view tele_gc = telemetry_content
content_of_view tele_classes = telemetry_content
content_of_view tele_threads = telemetry_content
content_of_view tele_cpu_load = telemetry_content
content_of_view live_all_objects = memory_content
content_of_view live_recorded_objects = memory_content
content_of_view live_allocation_hot_spots = memory_content
content_of_view live_allocation_call_tree = allocation_tree_content
content_of_view live_class_tracker = class_tracker_content
content_of_view heap_start = heap_content
content_of_view heap_classes = heap_content
content_of_view heap_biggest_objects = heap_content
content_of_view heap_references = heap_content
content_of_view cpu_call_tree = call_tree_content
content_of_view cpu_hot_spots = hotspots_content
content_of_view cpu_call_graph = call_graph_content
content_of_view cpu_outliers = outliers_content
content_of_view cpu_complexity = complexity_content
content_of_view cpu_tracer = tracer_content
content_of_view threads_history = threads_content
content_of_view threads_monitor = threads_content
content_of_view threads_dumps = dumps_content
content_of_view databases_jdbc = database_content
content_of_view databases_jpa = probe_content
content_of_view databases_mongo = probe_content
content_of_view databases_cassandra = probe_content

abbrev vm_text : Option ℕ → Text
vm_text none = codes "VM # -"
vm_text (some pid) = codes "VM #" ++ to_decimal pid

abbrev connection_text : Option ℕ → Text
connection_text none = codes "Disconnected"
connection_text (some pid) = codes "Profiling"

-- `{:02}`.
abbrev two_digits : ℕ → Text
two_digits n = if ltb n 10 then b'0' ∷ to_decimal n else to_decimal n

-- The cells of a process; `none` is a panic of its shortened name.
unfoldable pub jvm_cells : Option ℕ → JvmTarget → Option (List Text)
jvm_cells selected jvm = do
  name ← truncate_str (jvm.display_name ++ (codes "  " ++ jvm.main_class)) 72
  some (
      ((if (elim selected [ none ↦ false | some pid ↦ pid == jvm.pid ])
          then codes "> "
          else codes "  ")
        ++ to_decimal jvm.pid)
      ∷ name
      ∷ (if jvm.profiled then codes "agent/profiler" else codes "detected")
      ∷ [])

abbrev last_log_text : List OperationLog → Option Text
last_log_text [] = some []
last_log_text (log ∷ rest) = do
  message ← truncate_str log.message 40
  some (codes " | " ++ (log.action ++ (codes ": " ++ message)))

abbrev mode_text : InputMode → Text
mode_text normal = codes "NORMAL"
mode_text filter = codes "FILTER"

unfoldable pub jvm_rows : Option ℕ → List JvmTarget → Option (List (List Text))
unfolding jvm_cells
jvm_rows selected targets = cells_of (jvm_cells selected) targets

abbrev jvm_table : Option ℕ → List JvmTarget → Option Shown
jvm_table selected [] =
    some (shows_empty (codes "No local JVMs detected") (codes "Press r to refresh"))
jvm_table selected (jvm ∷ rest) = do
  rows ← jvm_rows selected (jvm ∷ rest)
  some (
      shows_table (codes " Quick Attach ")
        (codes "PID" ∷ codes "Process Name" ∷ codes "Status" ∷ []) rows)

module _ {F : Type 0} where
  unfoldable pub content_of : App F → Content
  unfolding content_of_view
  content_of app = if app.show_help then help_content else content_of_view app.selected_view

  unfoldable pub render_toolbar : App F → Text
  render_toolbar app =
      codes " [1] Tele  [2] CPU  [3] Mem  [4] DB   "
      ++ ((if ltb 0 (active_recording_count app)
            then b' ' ∷ 9679 ∷ codes " REC "
            else b' ' ∷ 9679 ∷ codes " IDLE ")
          ++ (codes "  "
              ++ (vm_text app.selected_pid
                  ++ (codes "  "
                      ++ (connection_text app.selected_pid
                          ++ (codes "  Agent :"
                              ++ (to_decimal app.cpu.agent_port
                                  ++ (codes "  " ++ (elim app.focus_pane [
                                    | sidebar ↦ codes " Focus: Nav "
                                    | main ↦ codes " Focus: Main "
                                  ])))))))))

  abbrev category_line : App F → ℕ → CategoryEntry → Text
  category_line app i entry =
      (if i == app.selected_category_idx
          || any_of (λ view. same_view view app.selected_view) entry.views
        then codes " > "
        else codes "   ")
      ++ entry.title

  unfoldable pub category_lines : App F → ℕ → List CategoryEntry → List Text
  category_lines app i [] = []
  category_lines app i (entry ∷ rest) = category_line app i entry ∷ category_lines app (i + 1) rest

  unfoldable pub render_sidebar : App F → List Text
  unfolding category_lines
  render_sidebar app =
      category_lines app 0 categories
      ++ ([]
          ∷ codes " Keys"
          ∷ codes " q  Quit"
          ∷ codes " r  Refresh"
          ∷ codes " s  Start/Stop"
          ∷ codes " c  Copy TSV"
          ∷ codes " g  Run GC"
          ∷ codes " f  Filter"
          ∷ codes " Tab  Focus"
          ∷ codes " Up/Down  Select"
          ∷ codes " Right  Expand"
          ∷ [])

  -- `none` is a panic of the newest log entry's shortened message.
  unfoldable pub render_status_bar : Host F → Now → App F → Option Text
  render_status_bar host now app = do
    last_log ← last_log_text app.logs
    let seconds = host.to_u64 (elapsed_secs host now app)
    some (
        b' '
        ∷ (connection_text app.selected_pid
            ++ (codes " | "
                ++ (to_decimal (active_recording_count app)
                    ++ (codes " rec | "
                        ++ (vm_text app.selected_pid
                            ++ (codes " | "
                                ++ (two_digits (seconds / 60)
                                    ++ (b':'
                                        ∷ (two_digits (seconds % 60)
                                            ++ (codes " | "
                                                ++ (label app.selected_view
                                                    ++ ((if is_empty app.filter_input
                                                          then []
                                                          else codes " | Filter: "
                                                            ++ app.filter_input)
                                                        ++ (codes " ["
                                                            ++ (mode_text app.input_mode
                                                            ++ (codes "] "
                                                            ++ (now.stamp
                                                            ++ last_log)))))))))))))))))

  -- `none` is a panic of a shortened process name.
  unfoldable pub render_start_center : App F → Option (List Shown)
  unfolding jvm_rows
  render_start_center app = do
    table ← jvm_table app.selected_pid app.jvm_targets
    some (
        shows_lines [] (
          codes " Start Center"
          ∷ []
          ∷ codes " Quick Attach - select a local HotSpot/OpenJ9 JVM"
          ∷ [])
        ∷ shows_lines [] (codes " On this computer  Status: All detected JVMs  [r=Refresh]" ∷ [])
        ∷ table
        ∷ shows_lines (codes " Actions ") (
            codes
              " Up/Down select JVM    Enter start CPU recording and open Telemetries    r refresh"
            ∷ codes "Selecting a JVM starts CPU recording automatically."
            ∷ [])
        ∷ [])
