-- ===== src/App/Results.antt =====
-- app.rs: what the answer to a query does to the state.
use oprofiler.Base.{
  ℕ, ◌+◌, ◌-◌, Bool, true, false, not, ◌&&◌, List, [], ◌∷◌, ◌++◌, Option, none, some, map, min,
  length, take, is_empty, ltb, if◌then◌else◌, done, failed, keep_newest_back,
}
use oprofiler.Base.Text.{Text, codes, text_eq, to_decimal}
use oprofiler.Base.Maps.{collect}
use oprofiler.Base.Sort.{sort_by}
use oprofiler.Model.Floats.{Host}
use oprofiler.Model.Views.{same_view, start_center, live_allocation_hot_spots}
use oprofiler.Model.Rows.{
  LogLevel, JvmTarget, TelemetrySample, ProcessSnapshot, HeapSnapshot, GcSnapshot, CpuMethodRow,
  CpuMethodEdgeRow, LiveMemorySnapshot,
}
use oprofiler.Model.Threads.{ThreadInfo, ThreadDump, ThreadSummary, StackSample}
use oprofiler.CallTree.{CallTreeConfig, build_call_tree, build_hot_spots}
use oprofiler.App.State.{
  App, Now, QueryResult, QueryHandle, jvms, jvms_error, telemetry, live_memory_rows, cpu_sample,
  cpu_instrumentation, thread_dump, heap_snapshot, cpu_recording, gc, poll, elapsed_secs, push_log,
  default_page_rows, max_thread_dumps,
}
use oprofiler.App.Rows.{
  visible_hotspot_row_count, filtered_memory_rows, visible_allocation_hotspot_rows,
}
use oprofiler.App.Sql.{database_row_count}
use oprofiler.App.Selection.{keep_visible}
use oprofiler.App.Session.{
  ensure_default_jvm_selected, set_agent_port, spawn_fetch_cpu_instrumentation,
}

abbrev or_else : {A B : Type 0} → Option A → B → (A → B) → B
or_else none d f = d
or_else (some a) d f = f a

abbrev is_some : {A : Type 0} → Option A → Bool
is_some none = false
is_some (some a) = true

abbrev level_of : Bool → LogLevel
level_of true = LogLevel.ok
level_of false = LogLevel.error

-- The thread's state counted in its class.
abbrev pub count_thread : {F : Type 0} → ThreadInfo → ThreadSummary F → ThreadSummary F
count_thread thread s =
    if text_eq thread.state (codes "RUNNABLE")
    then record s { runnable = s.runnable + 1 }
    else if text_eq thread.state (codes "WAITING")
    then record s { waiting = s.waiting + 1 }
    else if text_eq thread.state (codes "TIMED_WAITING")
    then record s { timed_waiting = s.timed_waiting + 1 }
    else if text_eq thread.state (codes "BLOCKED")
    then record s { blocked = s.blocked + 1 }
    else record s { other = s.other + 1 }

unfoldable pub count_threads : {F : Type 0} → List ThreadInfo → ThreadSummary F → ThreadSummary F
count_threads [] s = s
count_threads (thread ∷ rest) s = count_threads rest (count_thread thread s)

-- The threads of a dump that have frames and, where only running ones are wanted, run.
abbrev pub is_sampled : Text → ThreadInfo → Bool
is_sampled thread_status thread =
    not (is_empty thread.frames)
    && not
        (text_eq thread_status (codes "Runnable") && not (text_eq thread.state (codes "RUNNABLE")))

module _ {F : Type 0} where
  unfoldable pub push_thread_dump : ThreadDump → App F → App F
  push_thread_dump dump app =
      let dumps = keep_newest_back max_thread_dumps (app.threads.dumps ++ dump ∷ []) in
      record app {
        threads = record app.threads { dumps = dumps; selected_dump = some (length dumps - 1) };
      }

  -- The answer that a slot's query has sent, and what stays in the slot.
  abbrev pub take_answer : Option (QueryHandle F) → List (QueryResult F)
  take_answer none = []
  take_answer (some h) = elim (poll h) [ none ↦ [] | some result ↦ result ∷ [] ]

  abbrev pub left_in_slot : Option (QueryHandle F) → Option (QueryHandle F)
  left_in_slot none = none
  left_in_slot (some h) = elim (poll h) [ none ↦ some h | some result ↦ none ]

  unfoldable pub answers_of : List (QueryHandle F) → List (QueryResult F)
  answers_of [] = []
  answers_of (h ∷ rest) = elim (poll h) [
    | none ↦ answers_of rest
    | some result ↦ result ∷ answers_of rest
  ]

  unfoldable pub still_pending : List (QueryHandle F) → List (QueryHandle F)
  still_pending [] = []
  still_pending (h ∷ rest) = elim (poll h) [
    | none ↦ h ∷ still_pending rest
    | some result ↦ still_pending rest
  ]

module _ {F : Type 0} (host : Host F) (now : Now) where
  unfoldable pub sample_of : Text → App F → ThreadInfo → StackSample F
  sample_of captured_at app thread = record {
    thread = thread.name;
    state = thread.state;
    frames = thread.frames;
    stack_trace = thread.stack_trace;
    captured_at = captured_at;
    elapsed_secs = elapsed_secs host now app;
  }

  unfoldable pub update_thread_history : List ThreadInfo → App F → App F
  unfolding count_threads
  update_thread_history threads app =
      let fresh : ThreadSummary F = record {
        elapsed_secs = elapsed_secs host now app;
        runnable = 0;
        waiting = 0;
        timed_waiting = 0;
        blocked = 0;
        other = 0;
      } in
      record app {
        threads = record app.threads {
          history = keep_newest_back 240 (app.threads.history ++ count_threads threads fresh ∷ []);
        };
      }

  unfoldable pub rebuild_cpu_rows : App F → App F
  rebuild_cpu_rows app =
      let config : CallTreeConfig F = record {
        total_sample_count = length app.cpu.samples;
        sampling_interval_ms = app.cpu.sampling_interval_ms;
      } in
      let tree = build_call_tree host config app.cpu.samples app.cpu.thread_status in
      let rows = build_hot_spots host tree (length app.cpu.samples) in
      record app {
        cpu = record app.cpu {
          call_tree = tree;
          methods = take 250 (sort_by (λ a b. ltb b.total_samples a.total_samples) rows);
          method_edges = [];
        };
      }

  -- The share of the CPU since the last reading: 0 unless time has passed and the counter has grown.
  unfoldable pub cpu_percent_of : Option (F × ℕ) → F → F
  cpu_percent_of none cpu_secs = host.of_nat 0
  cpu_percent_of (some (last_cpu, last_at)) cpu_secs =
      let elapsed = host.as_secs (now.instant - last_at) in
      if host.lt (host.of_nat 0) elapsed && host.ge cpu_secs last_cpu
      then host.clamp (host.mul (host.div (host.sub cpu_secs last_cpu) elapsed) (host.of_nat 100))
          (host.of_nat 0) (host.of_nat 800)
      else host.of_nat 0

  unfoldable pub apply_telemetry :
      Option (ProcessSnapshot F)
      → Option (HeapSnapshot F)
      → Option GcSnapshot
      → F
      → Option F
      → App F
      → App F
  unfolding cpu_percent_of
  apply_telemetry process heap gc_counts elapsed cpu_seconds app =
      let zero_f = host.of_nat 0 in
      let sample : TelemetrySample F = record {
        elapsed_secs = elapsed;
        heap_used_mb = or_else heap zero_f (λ h. h.used_mb);
        heap_committed_mb = or_else heap zero_f (λ h. h.committed_mb);
        process_mb = or_else process zero_f (λ p. p.working_set_mb);
        private_mb = or_else process zero_f (λ p. p.private_mb);
        cpu_percent =
            or_else cpu_seconds zero_f (cpu_percent_of app.telemetry_state.last_process_cpu);
        thread_count = or_else process zero_f (λ p. host.of_nat p.thread_count);
        handle_count = or_else process zero_f (λ p. host.of_nat p.handle_count);
        class_count = host.of_nat (length app.memory.rows);
        gc_count = or_else gc_counts zero_f (λ g. host.of_nat g.count);
        gc_time_ms = or_else gc_counts zero_f (λ g. host.of_nat g.time_ms);
      } in
      record app {
        telemetry_state = record {
          last_process_cpu =
              or_else cpu_seconds app.telemetry_state.last_process_cpu
                (λ secs. some (secs, now.instant));
          samples = keep_newest_back 240 (app.telemetry_state.samples ++ sample ∷ []);
        };
      }

  abbrev clip_memory : ℕ → App F → App F
  clip_memory max_idx app =
      let row = min app.memory.selected_row_idx max_idx in
      record app {
        memory = record app.memory {
          selected_row_idx = row;
          row_offset = keep_visible app.memory.row_offset row default_page_rows;
        };
      }

  unfoldable pub apply_live_memory : LiveMemorySnapshot → App F → App F
  apply_live_memory snapshot app =
      let loaded : App F = record app {
        memory = record app.memory {
          previous_histogram =
              collect text_eq []
                (map (λ row. (row.name, (row.instances, row.bytes))) snapshot.rows);
          rows = snapshot.rows;
          allocation_hotspots = snapshot.allocation_hotspots;
        };
      } in
      let max_idx =
        if same_view loaded.selected_view live_allocation_hot_spots
        then length (visible_allocation_hotspot_rows host loaded) - 1
        else length (filtered_memory_rows host loaded) - 1 in
      push_log now LogLevel.ok (codes "Refresh Live Memory")
        (to_decimal (length snapshot.rows)
          ++ (codes " class row(s), "
              ++ (to_decimal (length snapshot.allocation_hotspots)
                  ++ codes " allocation site row(s) loaded")))
        (clip_memory max_idx loaded)

  -- Each thread in turn is sampled or passed over; `added` counts.
  unfoldable pub sample_threads : Text → Text → List ThreadInfo → ℕ → App F → App F × ℕ
  unfolding sample_of
  sample_threads captured_at thread_status [] added app = (app, added)
  sample_threads captured_at thread_status (thread ∷ rest) added app =
      let wanted = is_sampled thread_status thread in
      sample_threads captured_at thread_status rest (if wanted then added + 1 else added) (
        if wanted
        then record app {
          cpu = record app.cpu {
            samples = app.cpu.samples ++ sample_of captured_at app thread ∷ [];
          };
        }
        else app)

  unfoldable pub apply_cpu_sample : ThreadDump → Text → App F → App F
  unfolding sample_threads rebuild_cpu_rows update_thread_history push_thread_dump
  apply_cpu_sample dump thread_status app =
      let (sampled, added) = sample_threads dump.captured_at thread_status dump.threads 0 app in
      let bounded : App F = record sampled {
        cpu = record sampled.cpu { samples = keep_newest_back 800 sampled.cpu.samples };
      } in
      push_log now LogLevel.ok (codes "CPU Sample")
        (to_decimal added ++ codes " stack sample(s) captured")
        (push_thread_dump dump (update_thread_history dump.threads (rebuild_cpu_rows bounded)))

  abbrev clip_database : App F → App F
  clip_database app =
      let row = min app.database.selected_row_idx (database_row_count host app - 1) in
      record app {
        database = record app.database {
          selected_row_idx = row;
          row_offset = keep_visible app.database.row_offset row default_page_rows;
        };
      }

  abbrev clip_hotspots : App F → App F
  clip_hotspots app =
      let row = min app.cpu.selected_hotspot_idx (visible_hotspot_row_count host app - 1) in
      record app {
        cpu = record app.cpu {
          selected_hotspot_idx = row;
          row_offset = keep_visible app.cpu.row_offset row default_page_rows;
        };
      }

  unfoldable pub apply_instrumentation :
      List (CpuMethodRow F) → List CpuMethodEdgeRow → App F → App F
  apply_instrumentation rows method_edges app =
      push_log now LogLevel.ok (codes "CPU Instrumentation")
        (to_decimal (length rows) ++ codes " hot spot(s) fetched")
        (clip_database (
          clip_hotspots
            (record app { cpu = record app.cpu { methods = rows; method_edges = method_edges } })))

  -- An answer to "Stop CPU" ends the recording if it succeeded; an answer to any other action starts
  -- or ends it. Either way the flag of the request goes down.
  unfoldable pub apply_cpu_recording : Bool → Text → Text → ℕ → App F → App F
  apply_cpu_recording success action message port app =
      let started : App F =
        push_log now LogLevel.ok action message
          (record (set_agent_port port (record app { cpu_recording_start_pending = false })) {
            agent_enabled = true;
            cpu = record app.cpu { agent_port = port; recording = true };
          }) in
      if text_eq action (codes "Stop CPU")
      then (let stopped : App F = record app { cpu_recording_stop_pending = false } in
          if success
          then push_log now LogLevel.ok action message
              (record stopped { cpu = record app.cpu { recording = false } })
          else push_log now LogLevel.error action message stopped)
      else if success
      then (if is_some app.thread_query then started else spawn_fetch_cpu_instrumentation started)
      else push_log now LogLevel.error action message (record app {
        cpu_recording_start_pending = false;
        cpu = record app.cpu { recording = false };
      })

  unfoldable pub apply_jvms : List JvmTarget → App F → App F
  apply_jvms targets app =
      let listed =
        push_log now LogLevel.ok (codes "Refresh JVMs")
          (to_decimal (length targets) ++ codes " local JVM(s) discovered")
          (ensure_default_jvm_selected host (record app { jvm_targets = targets })) in
      if not (same_view listed.selected_view start_center)
        && is_some listed.selected_pid
        && not listed.cpu.recording
      then record listed { pending_initial_cpu_start = true }
      else listed

  unfoldable pub apply_result : QueryResult F → App F → App F
  unfolding apply_telemetry apply_live_memory apply_cpu_sample apply_instrumentation
      apply_cpu_recording apply_jvms push_thread_dump update_thread_history
  apply_result (jvms targets) app = apply_jvms targets app
  apply_result (jvms_error message) app =
      push_log now LogLevel.error (codes "Refresh JVMs") message app
  apply_result (telemetry process heap gc_counts elapsed cpu_seconds) app =
      apply_telemetry process heap gc_counts elapsed cpu_seconds app
  apply_result (live_memory_rows (done snapshot)) app = apply_live_memory snapshot app
  apply_result (live_memory_rows (failed message)) app =
      push_log now LogLevel.error (codes "Live Memory") message app
  apply_result (cpu_sample (done dump) thread_status) app = apply_cpu_sample dump thread_status app
  apply_result (cpu_sample (failed message) thread_status) app =
      push_log now LogLevel.error (codes "CPU Sample") message app
  apply_result (cpu_instrumentation (done (rows, method_edges))) app =
      apply_instrumentation rows method_edges app
  apply_result (cpu_instrumentation (failed message)) app =
      push_log now LogLevel.warn (codes "CPU Instrumentation") message app
  apply_result (thread_dump (done dump)) app =
      push_log now LogLevel.ok (codes "Thread Dump")
        (to_decimal (length dump.threads) ++ codes " thread(s) captured")
        (push_thread_dump dump (update_thread_history dump.threads app))
  apply_result (thread_dump (failed message)) app =
      push_log now LogLevel.error (codes "Thread Dump") message app
  apply_result (heap_snapshot success message path pid) app =
      push_log now (level_of success) (codes "Take Snapshot") message app
  apply_result (cpu_recording success action message pid port) app =
      apply_cpu_recording success action message port app
  apply_result (gc success message pid) app =
      push_log now (level_of success) (codes "Run GC") message app

  unfoldable pub apply_results : List (QueryResult F) → App F → App F
  unfolding apply_result
  apply_results [] app = app
  apply_results (result ∷ rest) app = apply_results rest (apply_result result app)

  unfoldable pub poll_queries : App F → App F
  unfolding answers_of still_pending apply_results poll
  poll_queries app =
      apply_results
        (take_answer app.jvms_query
          ++ (take_answer app.telemetry_query
              ++ (take_answer app.memory_query
                  ++ (take_answer app.thread_query ++ answers_of app.pending_queries))))
        (record app {
          jvms_query = left_in_slot app.jvms_query;
          telemetry_query = left_in_slot app.telemetry_query;
          memory_query = left_in_slot app.memory_query;
          thread_query = left_in_slot app.thread_query;
          pending_queries = still_pending app.pending_queries;
        })
