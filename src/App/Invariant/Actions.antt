-- ===== src/App/Invariant/Actions.antt =====
-- app.rs: the actions, with the queries that they start, keep the application valid.
use oprofiler.Base.{
  if◌then◌else◌, refl, done, failed, ℕ, ◌+◌, as_num, Bool-cases, ◌≡◌, Bool, true, false, [], ◌∷◌,
  ◌++◌, arith, inl, inr, Option-cases,
}
use oprofiler.Seq.{All-append}
use oprofiler.Base.Text.{Text, codes, text_eq, to_decimal}
use oprofiler.Model.Rows.{LogLevel}
use oprofiler.App.State.{
  App, Now, QueryHandle, Task, spawn, push_log, start_recording, selected_target,
}
use oprofiler.App.Flight.{
  IsHonest, task_starts, task_stops, starts-append, stops-append, stop_action,
}
use oprofiler.App.Session.{
  include_of, set_agent_port, spawn_refresh_jvms, spawn_refresh_live_memory, spawn_sample_cpu,
  spawn_capture_thread_dump, spawn_fetch_cpu_instrumentation, spawn_start_cpu_recording,
}
use oprofiler.App.Invariant.{IsValid, IsValidDuring, push_log-IsValid}
use oprofiler.App.Session.{spawn_stop_cpu_recording}
use oprofiler.App.Session.{start_initial_cpu_recording}
use oprofiler.App.Session.{run_gc}
use oprofiler.App.Session.{mark_heap}
use oprofiler.Model.Floats.{Host}
use oprofiler.App.State.{stop_recording}
use oprofiler.App.State.{gc_run}
use oprofiler.App.Session.{ensure_default_jvm_selected}
use oprofiler.App.Session.{spawn_refresh_telemetry}
use oprofiler.App.Session.{start_selected_jvm_session}
use oprofiler.App.Session.{toggle_recording}
use oprofiler.App.Session.{refresh_current, threads_view}
use oprofiler.App.Session.{copy_selected_item}
use oprofiler.App.Selection.{go_to_view, is_memory_view}
use oprofiler.Base.{Result}
use oprofiler.Model.Views.{tele_overview}
use oprofiler.App.Sql.{current_view_copy_text}
use oprofiler.App.Invariant.Moves.{go_to_view-IsValid}
use oprofiler.Base.{some}

abbrev start_message : ℕ → Text
start_message pid =
    codes "starting CPU recording for JVM " ++ (to_decimal pid ++ codes " in background")

module _ {F : Type 0} where
  pub set_agent_port-IsValid :
      (port : ℕ) (app : App F) → IsValid app → IsValid (set_agent_port port app)
  unfolding set_agent_port
  set_agent_port-IsValid port app v = ground arith

  pub spawn_refresh_jvms-IsValid : (app : App F) → IsValid app → IsValid (spawn_refresh_jvms app)
  unfolding spawn_refresh_jvms spawn
  spawn_refresh_jvms-IsValid app v = ground arith

  pub spawn_refresh_live_memory-IsValid :
      (now : Now) (app : App F) → IsValid app → IsValid (spawn_refresh_live_memory now app)
  unfolding spawn_refresh_live_memory spawn
  spawn_refresh_live_memory-IsValid now app v = ground (
    arith,
    push_log-IsValid now LogLevel.warn (codes "Refresh Live Memory") (codes "select a JVM first")
        {app = app} v,
  )

  pub spawn_sample_cpu-IsValid :
      (now : Now) (app : App F) → IsValid app → IsValid (spawn_sample_cpu now app)
  unfolding spawn_sample_cpu spawn
  spawn_sample_cpu-IsValid now app v = ground (
    arith,
    push_log-IsValid now LogLevel.warn (codes "CPU Sample") (codes "select a JVM first") {app = app}
        v,
  )

  pub spawn_capture_thread_dump-IsValid :
      (now : Now) (app : App F) → IsValid app → IsValid (spawn_capture_thread_dump now app)
  unfolding spawn_capture_thread_dump spawn
  spawn_capture_thread_dump-IsValid now app v = ground (
    arith,
    push_log-IsValid now LogLevel.warn (codes "Thread Dump") (codes "select a JVM first")
        {app = app} v,
  )

  pub spawn_fetch-IsValid :
      {s t : ℕ} (app : App F)
      → IsValidDuring s t app
      → IsValidDuring s t (spawn_fetch_cpu_instrumentation app)
  unfolding spawn_fetch_cpu_instrumentation spawn
  spawn_fetch-IsValid {s} {t} app v = ground arith

  -- A query joins those in flight, and the flags count it.
  pub add_query-IsValid :
      (h : QueryHandle F) (starting stopping : Bool) (app : App F)
      → IsHonest h
      → task_starts h.task + as_num app.cpu_recording_start_pending ≡ as_num starting
      → task_stops h.task + as_num app.cpu_recording_stop_pending ≡ as_num stopping
      → IsValid app
      → IsValid (record app {
        pending_queries = app.pending_queries ++ h ∷ [];
        cpu_recording_start_pending = starting;
        cpu_recording_stop_pending = stopping;
      })
  add_query-IsValid h starting stopping app honest more_starts more_stops v =
      let appended = All-append IsHonest app.pending_queries (h ∷ []) v.honest (honest, tt) in
      ground (
        arith,
        appended,
        starts-append app.pending_queries (h ∷ []),
        stops-append app.pending_queries (h ∷ []),
      )

  abbrev start_task : Text → ℕ → App F → Task F
  start_task action pid app =
      start_recording pid app.cpu.agent_port action (include_of (selected_target app))

  -- A start request is added only where none was in flight.
  pub spawn_start-IsValid :
      (now : Now) (action : Text) (app : App F)
      → text_eq action stop_action ≡ false
      → IsValid app
      → IsValid (spawn_start_cpu_recording now action app)
  unfolding spawn_start_cpu_recording spawn push_log
  spawn_start-IsValid now action app named v = elim (Bool-cases app.cpu_recording_start_pending) [
    | inl e ↦ ground arith
    | inr e ↦ elim (Option-cases app.selected_pid) [
      | inl none_selected ↦ ground arith
      | inr (pid, selected) ↦
          let h : QueryHandle F = spawn (start_task action pid app) in
          let valid = push_log-IsValid now LogLevel.info action (start_message pid) (
            add_query-IsValid h true app.cpu_recording_stop_pending app (named, tt) (ground arith)
              (ground arith) v) in
          ground (arith, valid)
    ]
  ]

  abbrev stop_message : App F → Text
  stop_message app =
      codes "stopping CPU recording on localhost:"
      ++ (to_decimal app.cpu.agent_port ++ codes " in background")

  -- And a stop request only where no stop was.
  pub spawn_stop-IsValid :
      (now : Now) (app : App F) → IsValid app → IsValid (spawn_stop_cpu_recording now app)
  unfolding spawn_stop_cpu_recording spawn push_log
  spawn_stop-IsValid now app v = elim (Bool-cases app.cpu_recording_stop_pending) [
    | inl e ↦ ground arith
    | inr e ↦
        let h : QueryHandle F = spawn (stop_recording app.cpu.agent_port) in
        let valid = push_log-IsValid now LogLevel.info stop_action (stop_message app) (
          add_query-IsValid h app.cpu_recording_start_pending true app (tt, tt) (ground arith)
            (ground arith) v) in
        ground (arith, valid)
  ]

  pub start_initial-IsValid :
      (now : Now) (app : App F) → IsValid app → IsValid (start_initial_cpu_recording now app)
  unfolding start_initial_cpu_recording
  start_initial-IsValid now app v = ground (
    arith,
    push_log-IsValid now LogLevel.warn (codes "Initial CPU")
        (codes "waiting for JVM discovery before starting CPU recording") {app = app} v,
    spawn_start-IsValid now (codes "Initial CPU") app (unfold text_eq in refl) v,
  )

  pub run_gc-IsValid : (now : Now) (app : App F) → IsValid app → IsValid (run_gc now app)
  unfolding run_gc spawn
  run_gc-IsValid now app v = elim (Option-cases app.selected_pid) [
    | inl e ↦ ground (
      arith,
      push_log-IsValid now LogLevel.warn (codes "Run GC") (codes "select a JVM first") {app = app}
          v,
    )
    | inr (pid, e) ↦
        let h : QueryHandle F = spawn (gc_run pid) in
        let valid =
          add_query-IsValid h app.cpu_recording_start_pending app.cpu_recording_stop_pending app
            (tt, tt) (ground arith) (ground arith) v in
        ground (arith, valid)
  ]

  pub mark_heap-IsValid : (now : Now) (app : App F) → IsValid app → IsValid (mark_heap now app)
  unfolding mark_heap push_log
  mark_heap-IsValid now app v =
      let valid =
        push_log-IsValid now LogLevel.ok (codes "Mark Heap")
          (codes "current class histogram marked as baseline") {app = app} v in
      ground (arith, valid)

module _ {F : Type 0} (host : Host F) where
  pub ensure_default-IsValid :
      {s t : ℕ} (app : App F)
      → IsValidDuring s t app
      → IsValidDuring s t (ensure_default_jvm_selected host app)
  unfolding ensure_default_jvm_selected
  ensure_default-IsValid {s} {t} app v = ground arith

  pub spawn_refresh_telemetry-IsValid :
      (now : Now) (app : App F) → IsValid app → IsValid (spawn_refresh_telemetry host now app)
  unfolding spawn_refresh_telemetry spawn
  spawn_refresh_telemetry-IsValid now app v = ground arith

  pub start_session-IsValid :
      (now : Now) (app : App F) → IsValid app → IsValid (start_selected_jvm_session host now app)
  unfolding start_selected_jvm_session
  start_session-IsValid now app v =
      let chosen = ensure_default_jvm_selected host app in
      let shown = go_to_view tele_overview chosen in
      let chosen_valid = ensure_default-IsValid app v in
      let refreshed_valid =
        spawn_refresh_telemetry-IsValid now shown
          (go_to_view-IsValid tele_overview {app = chosen} chosen_valid) in
      ground (
        arith,
        push_log-IsValid now LogLevel.warn (codes "Start Session") (codes "select a JVM first")
            {app = chosen} chosen_valid,
        start_initial-IsValid now (spawn_refresh_telemetry host now shown) refreshed_valid,
      )

  pub toggle_recording-IsValid :
      (now : Now) (app : App F) → IsValid app → IsValid (toggle_recording host now app)
  unfolding toggle_recording
  toggle_recording-IsValid now app v = ground (
    arith,
    start_session-IsValid now app v,
    push_log-IsValid now LogLevel.info (codes "Stop CPU")
        (codes "CPU recording is already stopping") {app = app} v,
    push_log-IsValid now LogLevel.info (codes "Start CPU")
        (codes "CPU recording is already starting") {app = app} v,
    spawn_stop-IsValid now app v,
    spawn_start-IsValid now (codes "Start CPU") app (unfold text_eq in refl) v,
  )

  -- Refreshing reads the telemetry and the list of processes in every view.
  abbrev listed_of : Now → App F → App F
  listed_of now app = spawn_refresh_telemetry host now (spawn_refresh_jvms app)

  listed-IsValid : (now : Now) (app : App F) → IsValid app → IsValid (listed_of now app)
  listed-IsValid now app v =
      spawn_refresh_telemetry-IsValid now (spawn_refresh_jvms app)
        (spawn_refresh_jvms-IsValid app v)

  remembered-IsValid :
      (now : Now) (app : App F)
      → IsValid app
      → IsValid (
          if is_memory_view app
          then spawn_refresh_live_memory now (listed_of now app)
          else listed_of now app)
  remembered-IsValid now app v = elim (Bool-cases (is_memory_view app)) [
    | inl e ↦
        rw e (spawn_refresh_live_memory-IsValid now (listed_of now app) (listed-IsValid now app v))
    | inr e ↦ rw e (listed-IsValid now app v)
  ]

  pub refresh_current-IsValid :
      (now : Now) (app : App F) → IsValid app → IsValid (refresh_current host now app)
  unfolding refresh_current
  refresh_current-IsValid now app v =
      let valid = remembered-IsValid now app v in
      elim (Bool-cases (threads_view app.selected_view)) [
        | inl e ↦ rw e (spawn_capture_thread_dump-IsValid now _ valid)
        | inr e ↦ rw e valid
      ]

  pub copy-IsValid :
      (now : Now) (copied : Text → Result (Unit {0})) (app : App F)
      → IsValid app
      → IsValid (copy_selected_item host now copied app)
  unfolding copy_selected_item
  copy-IsValid now copied app v = elim (Option-cases (current_view_copy_text host app)) [
    | inl e ↦ ground (
      arith,
      push_log-IsValid now LogLevel.warn (codes "Copy") (codes "no table data to copy") {app = app}
          v,
    )
    | inr (text, e) ↦ answered text e (copied text) refl
  ]
    where
      answered :
          (text : Text)
          → current_view_copy_text host app ≡ some text
          → (answer : Result (Unit {0})) → copied text ≡ answer
          → IsValid (copy_selected_item host now copied app)
      answered text e (done u) c = ground (
        arith,
        push_log-IsValid now LogLevel.ok (codes "Copy") (codes "visible table copied as TSV")
            {app = app} v,
      )
      answered text e (failed err) c =
          ground (arith, push_log-IsValid now LogLevel.error (codes "Copy") err {app = app} v)
