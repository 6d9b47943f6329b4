-- ===== src/App/Session.antt =====
-- app.rs: the actions. Each may start queries in background threads, whose handles it keeps.
use oprofiler.Base.{
  ℕ, Bool, true, false, List, [], ◌∷◌, ◌++◌, Option, none, some, map, is_empty, find_first,
  if◌then◌else◌, Result, done, failed,
}
use oprofiler.Base.Text.{Text, codes, text_eq, to_decimal}
use oprofiler.Base.Maps.{collect}
use oprofiler.Model.Floats.{Host}
use oprofiler.Model.Views.{
  ViewId, same_view, start_center, tele_overview, threads_history, threads_monitor, threads_dumps,
}
use oprofiler.Model.Rows.{LogLevel, JvmTarget}
use oprofiler.Jvm.Targets.{is_likely_demo_server}
use oprofiler.App.State.{
  App, Now, refresh_jvms, refresh_telemetry, refresh_live_memory, sample_cpu, capture_thread_dump,
  fetch_cpu_instrumentation, start_recording, stop_recording, gc_run, spawn, elapsed_secs, push_log,
  selected_target,
}
use oprofiler.App.Sql.{current_view_copy_text}
use oprofiler.App.Selection.{go_to_view, is_memory_view}
use oprofiler.App.Attach.{default_instrument_include}

abbrev head_pid : List JvmTarget → Option ℕ
head_pid [] = none
head_pid (t ∷ ts) = some t.pid

abbrev pub threads_view : ViewId → Bool
threads_view threads_history = true
threads_view threads_monitor = true
threads_view threads_dumps = true
threads_view _ = false

abbrev pub include_of : Option JvmTarget → Option Text
include_of none = none
include_of (some target) = default_instrument_include target.main_class

module _ {F : Type 0} where
  unfoldable pub set_agent_port : ℕ → App F → App F
  set_agent_port port app = record app {
    agent_port = port;
    cpu = record app.cpu { agent_port = port };
  }

  unfoldable pub spawn_refresh_jvms : App F → App F
  spawn_refresh_jvms app = record app { jvms_query = some (spawn refresh_jvms) }

  unfoldable pub spawn_refresh_live_memory : Now → App F → App F
  spawn_refresh_live_memory now app = elim app.selected_pid [
    | none ↦
        push_log now LogLevel.warn (codes "Refresh Live Memory") (codes "select a JVM first") app
    | some pid ↦ record app {
      memory = record app.memory { loaded_once = true };
      memory_query =
          some (spawn (refresh_live_memory pid app.memory.previous_histogram app.cpu.agent_port));
    }
  ]

  unfoldable pub spawn_sample_cpu : Now → App F → App F
  spawn_sample_cpu now app = elim app.selected_pid [
    | none ↦ push_log now LogLevel.warn (codes "CPU Sample") (codes "select a JVM first") app
    | some pid ↦ record app { thread_query = some (spawn (sample_cpu pid app.cpu.thread_status)) }
  ]

  unfoldable pub spawn_capture_thread_dump : Now → App F → App F
  spawn_capture_thread_dump now app = elim app.selected_pid [
    | none ↦ push_log now LogLevel.warn (codes "Thread Dump") (codes "select a JVM first") app
    | some pid ↦ record app { thread_query = some (spawn (capture_thread_dump pid)) }
  ]

  unfoldable pub spawn_fetch_cpu_instrumentation : App F → App F
  spawn_fetch_cpu_instrumentation app = record app {
    thread_query = some (spawn (fetch_cpu_instrumentation app.cpu.agent_port));
  }

  -- A start that is on its way is not repeated, and without a JVM there is nothing to start.
  unfoldable pub spawn_start_cpu_recording : Now → Text → App F → App F
  spawn_start_cpu_recording now action app =
      if app.cpu_recording_start_pending then app else elim app.selected_pid [
        | none ↦ app
        | some pid ↦
            let task =
              start_recording pid app.cpu.agent_port action (include_of (selected_target app)) in
            let logged =
              push_log now LogLevel.info action
                (codes "starting CPU recording for JVM "
                  ++ (to_decimal pid ++ codes " in background"))
                (record app { cpu_recording_start_pending = true }) in
            record logged { pending_queries = logged.pending_queries ++ spawn task ∷ [] }
      ]

  unfoldable pub spawn_stop_cpu_recording : Now → App F → App F
  spawn_stop_cpu_recording now app =
      let logged =
        push_log now LogLevel.info (codes "Stop CPU")
          (codes "stopping CPU recording on localhost:"
            ++ (to_decimal app.cpu.agent_port ++ codes " in background"))
          (record app { cpu_recording_stop_pending = true }) in
      if app.cpu_recording_stop_pending then app else record logged {
        pending_queries = logged.pending_queries ++ spawn (stop_recording app.cpu.agent_port) ∷ [];
      }

  unfoldable pub start_initial_cpu_recording : Now → App F → App F
  unfolding spawn_start_cpu_recording
  start_initial_cpu_recording now app = if app.cpu.recording then app else elim app.selected_pid [
    | none ↦
        push_log now LogLevel.warn (codes "Initial CPU")
          (codes "waiting for JVM discovery before starting CPU recording") app
    | some pid ↦ spawn_start_cpu_recording now (codes "Initial CPU") app
  ]

  unfoldable pub run_gc : Now → App F → App F
  run_gc now app = elim app.selected_pid [
    | none ↦ push_log now LogLevel.warn (codes "Run GC") (codes "select a JVM first") app
    | some pid ↦ record app { pending_queries = app.pending_queries ++ spawn (gc_run pid) ∷ [] }
  ]

  unfoldable pub mark_heap : Now → App F → App F
  mark_heap now app =
      if is_empty app.memory.rows
      then app
      else push_log now LogLevel.ok (codes "Mark Heap")
          (codes "current class histogram marked as baseline")
          (record app {
            memory = record app.memory {
              marked_heap = some (
                  collect text_eq []
                    (map (λ row. (row.name, (row.instances, row.bytes))) app.memory.rows));
            };
          })

module _ {F : Type 0} (host : Host F) where
  unfoldable pub ensure_default_jvm_selected : App F → App F
  ensure_default_jvm_selected app = elim app.selected_pid [
    | some pid ↦ app
    | none ↦ if is_empty app.jvm_targets then app else record app {
      selected_pid = elim (find_first (is_likely_demo_server host) app.jvm_targets) [
        | some jvm ↦ some jvm.pid
        | none ↦ head_pid app.jvm_targets
      ];
    }
  ]

  unfoldable pub spawn_refresh_telemetry : Now → App F → App F
  spawn_refresh_telemetry now app = elim app.selected_pid [
    | none ↦ app
    | some pid ↦ record app {
      telemetry_query = some (spawn (refresh_telemetry pid (elapsed_secs host now app)));
    }
  ]

  -- Without a JVM, also after the default choice, the session does not start.
  unfoldable pub start_selected_jvm_session : Now → App F → App F
  unfolding ensure_default_jvm_selected spawn_refresh_telemetry start_initial_cpu_recording
  start_selected_jvm_session now app =
      let chosen = ensure_default_jvm_selected app in
      elim chosen.selected_pid [
        | none ↦
            push_log now LogLevel.warn (codes "Start Session") (codes "select a JVM first") chosen
        | some pid ↦
            start_initial_cpu_recording now
              (spawn_refresh_telemetry now (go_to_view tele_overview chosen))
      ]

  unfoldable pub toggle_recording : Now → App F → App F
  unfolding start_selected_jvm_session spawn_start_cpu_recording spawn_stop_cpu_recording
  toggle_recording now app =
      if same_view app.selected_view start_center
      then start_selected_jvm_session now app
      else if app.cpu.recording
      then (if app.cpu_recording_stop_pending
          then push_log now LogLevel.info (codes "Stop CPU")
              (codes "CPU recording is already stopping") app
          else spawn_stop_cpu_recording now app)
      else if app.cpu_recording_start_pending
      then push_log now LogLevel.info (codes "Start CPU")
          (codes "CPU recording is already starting") app
      else spawn_start_cpu_recording now (codes "Start CPU") app

  unfoldable pub refresh_current : Now → App F → App F
  unfolding spawn_refresh_jvms spawn_refresh_telemetry spawn_refresh_live_memory
      spawn_capture_thread_dump
  refresh_current now app =
      let listed = spawn_refresh_telemetry now (spawn_refresh_jvms app) in
      let remembered =
        if is_memory_view app then spawn_refresh_live_memory now listed else listed in
      if threads_view app.selected_view
      then spawn_capture_thread_dump now remembered
      else remembered

  -- `copied` is what the system's clipboard answers.
  unfoldable pub copy_selected_item : Now → (Text → Result (Unit {0})) → App F → App F
  copy_selected_item now copied app = elim (current_view_copy_text host app) [
    | none ↦ push_log now LogLevel.warn (codes "Copy") (codes "no table data to copy") app
    | some text ↦ elim (copied text) [
      | done _ ↦ push_log now LogLevel.ok (codes "Copy") (codes "visible table copied as TSV") app
      | failed err ↦ push_log now LogLevel.error (codes "Copy") err app
    ]
  ]
