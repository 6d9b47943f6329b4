-- ===== src/App/Invariant/Applied.antt =====
-- app.rs: what answers and time do to the state keeps the application valid.
use oprofiler.Base.{
  length-append, ℕ, ◌≤◌, ◌≡◌, Bool, true, false, List, [], ◌∷◌, ◌++◌, Option, arith, done, failed,
  length, length-keep_newest_back, length-keep_newest_back-le, if◌then◌else◌,
}
use oprofiler.Base.Text.{Text, codes, to_decimal}
use oprofiler.Model.Floats.{Host}
use oprofiler.Model.Rows.{
  LogLevel, JvmTarget, ProcessSnapshot, HeapSnapshot, GcSnapshot, LiveMemorySnapshot, CpuMethodRow,
  CpuMethodEdgeRow, TelemetrySample,
}
use oprofiler.Model.Threads.{ThreadInfo, ThreadDump, ThreadSummary, StackSample}
use oprofiler.App.State.{
  App, Now, QueryResult, jvms, jvms_error, telemetry, live_memory_rows, cpu_sample,
  cpu_instrumentation, thread_dump, heap_snapshot, cpu_recording, gc, max_thread_dumps,
}
use oprofiler.App.Flight.{result_starts, result_stops}
use oprofiler.App.Results.{
  push_thread_dump, update_thread_history, rebuild_cpu_rows, apply_telemetry, apply_live_memory,
  is_sampled, sample_threads, apply_cpu_sample, apply_instrumentation, apply_jvms, apply_result,
}
use oprofiler.App.Invariant.{IsValidDuring, push_log-IsValid}
use oprofiler.App.Invariant.Actions.{ensure_default-IsValid}

module _ {F : Type 0} {s t : ℕ} where
  pub push_thread_dump-IsValid :
      (dump : ThreadDump) (app : App F)
      → IsValidDuring s t app
      → IsValidDuring s t (push_thread_dump dump app)
  unfolding push_thread_dump
  push_thread_dump-IsValid dump app v = ground (
    arith,
    length-keep_newest_back max_thread_dumps (app.threads.dumps ++ dump ∷ []),
    length-append app.threads.dumps (dump ∷ []),
  )

  set_history-IsValid :
      (history : List (ThreadSummary F)) (app : App F)
      → length history ≤ 240
      → IsValidDuring s t app
      → IsValidDuring s t (record app { threads = record app.threads { history = history } })
  set_history-IsValid history app few v = ground arith

  set_samples-IsValid :
      (last : Option (F × ℕ)) (samples : List (TelemetrySample F)) (app : App F)
      → length samples ≤ 240
      → IsValidDuring s t app
      → IsValidDuring s t
          (record app { telemetry_state = record { last_process_cpu = last; samples = samples } })
  set_samples-IsValid last samples app few v = ground arith

module _ {F : Type 0} (host : Host F) (now : Now) {s t : ℕ} where
  pub update_history-IsValid :
      (threads : List ThreadInfo) (app : App F)
      → IsValidDuring s t app
      → IsValidDuring s t (update_thread_history host now threads app)
  unfolding update_thread_history
  update_history-IsValid threads app v =
      set_history-IsValid _ app (length-keep_newest_back-le 240 _) v

  pub rebuild-IsValid :
      (app : App F) → IsValidDuring s t app → IsValidDuring s t (rebuild_cpu_rows host now app)
  unfolding rebuild_cpu_rows
  rebuild-IsValid app v = ground arith

  pub apply_instrumentation-IsValid :
      (rows : List (CpuMethodRow F)) (method_edges : List CpuMethodEdgeRow) (app : App F)
      → IsValidDuring s t app
      → IsValidDuring s t (apply_instrumentation host now rows method_edges app)
  unfolding apply_instrumentation
  apply_instrumentation-IsValid rows method_edges app v =
      push_log-IsValid now LogLevel.ok _ _ (ground arith)

  pub apply_live_memory-IsValid :
      (snapshot : LiveMemorySnapshot) (app : App F)
      → IsValidDuring s t app
      → IsValidDuring s t (apply_live_memory host now snapshot app)
  unfolding apply_live_memory
  apply_live_memory-IsValid snapshot app v = push_log-IsValid now LogLevel.ok _ _ (ground arith)

  pub apply_jvms-IsValid :
      (targets : List JvmTarget) (app : App F)
      → IsValidDuring s t app
      → IsValidDuring s t (apply_jvms host now targets app)
  unfolding apply_jvms
  apply_jvms-IsValid targets app v =
      let listed =
        ensure_default-IsValid host {s = s} {t = t} (record app { jvm_targets = targets })
          (ground arith) in
      let logged =
        push_log-IsValid now LogLevel.ok (codes "Refresh JVMs")
          (to_decimal (length targets) ++ codes " local JVM(s) discovered") listed in
      ground (arith, logged)

  pub apply_telemetry-IsValid :
      (process : Option (ProcessSnapshot F)) (heap : Option (HeapSnapshot F))
      (gc_counts : Option GcSnapshot) (elapsed : F) (cpu_seconds : Option F) (app : App F)
      → IsValidDuring s t app
      → IsValidDuring s t (apply_telemetry host now process heap gc_counts elapsed cpu_seconds app)
  unfolding apply_telemetry
  apply_telemetry-IsValid process heap gc_counts elapsed cpu_seconds app v =
      set_samples-IsValid _ _ app (length-keep_newest_back-le 240 _) v

  sampled_one-IsValid :
      (wanted : Bool) (more stacks : List (StackSample F)) (app : App F)
      → IsValidDuring s t (record app { cpu = record app.cpu { samples = stacks } })
      → let next : App F =
          if wanted then record app { cpu = record app.cpu { samples = more } } else app in
        IsValidDuring s t (record next { cpu = record next.cpu { samples = stacks } })
  sampled_one-IsValid true more stacks app v = v
  sampled_one-IsValid false more stacks app v = v

  -- Whatever the stack samples are: they are cut before anything else is done.
  sampled-IsValid :
      (captured_at thread_status : Text) (threads : List ThreadInfo) (added : ℕ) (app : App F)
      (stacks : List (StackSample F))
      → length stacks ≤ 800
      → IsValidDuring s t (record app { cpu = record app.cpu { samples = stacks } })
      → let sampled = (sample_threads host now captured_at thread_status threads added app).0 in
        IsValidDuring s t (record sampled { cpu = record sampled.cpu { samples = stacks } })
  unfolding sample_threads
  sampled-IsValid captured_at thread_status [] added app stacks few v = v
  sampled-IsValid captured_at thread_status (thread ∷ rest) added app stacks few v =
      sampled-IsValid captured_at thread_status rest _ _ stacks few
        (sampled_one-IsValid (is_sampled thread_status thread) _ stacks app v)

  set_stacks-IsValid :
      (stacks : List (StackSample F)) (app : App F)
      → length stacks ≤ 800
      → IsValidDuring s t app
      → IsValidDuring s t (record app { cpu = record app.cpu { samples = stacks } })
  set_stacks-IsValid stacks app few v = ground arith

  pub apply_cpu_sample-IsValid :
      (dump : ThreadDump) (thread_status : Text) (app : App F)
      → IsValidDuring s t app
      → IsValidDuring s t (apply_cpu_sample host now dump thread_status app)
  unfolding apply_cpu_sample
  apply_cpu_sample-IsValid dump thread_status app v =
      let few = length-keep_newest_back-le 800 _ in
      push_log-IsValid now LogLevel.ok _ _ (
        push_thread_dump-IsValid dump _ (
          update_history-IsValid dump.threads _ (
            rebuild-IsValid _ (
              sampled-IsValid dump.captured_at thread_status dump.threads 0 app _ few
                (set_stacks-IsValid _ app few v)))))

  -- An answer that is no start or stop request's leaves their counts as they are.
  pub apply_plain-IsValid :
      (r : QueryResult F) (app : App F)
      → result_starts r ≡ 0
      → result_stops r ≡ 0
      → IsValidDuring s t app
      → IsValidDuring s t (apply_result host now r app)
  unfolding apply_result
  apply_plain-IsValid (jvms targets) app a b v = apply_jvms-IsValid targets app v
  apply_plain-IsValid (jvms_error message) app a b v = push_log-IsValid now _ _ _ v
  apply_plain-IsValid (telemetry process heap gc_counts elapsed cpu_seconds) app a b v =
      apply_telemetry-IsValid process heap gc_counts elapsed cpu_seconds app v
  apply_plain-IsValid (live_memory_rows (done snapshot)) app a b v =
      apply_live_memory-IsValid snapshot app v
  apply_plain-IsValid (live_memory_rows (failed message)) app a b v = push_log-IsValid now _ _ _ v
  apply_plain-IsValid (cpu_sample (done dump) thread_status) app a b v =
      apply_cpu_sample-IsValid dump thread_status app v
  apply_plain-IsValid (cpu_sample (failed message) thread_status) app a b v =
      push_log-IsValid now _ _ _ v
  apply_plain-IsValid (cpu_instrumentation (done (rows, method_edges))) app a b v =
      apply_instrumentation-IsValid rows method_edges app v
  apply_plain-IsValid (cpu_instrumentation (failed message)) app a b v =
      push_log-IsValid now _ _ _ v
  apply_plain-IsValid (thread_dump (done dump)) app a b v =
      push_log-IsValid now _ _ _
        (push_thread_dump-IsValid dump _ (update_history-IsValid dump.threads app v))
  apply_plain-IsValid (thread_dump (failed message)) app a b v = push_log-IsValid now _ _ _ v
  apply_plain-IsValid (heap_snapshot success message path pid) app a b v =
      push_log-IsValid now _ _ _ v
  apply_plain-IsValid (cpu_recording success action message pid port) app a b v =
      absurd (ground arith)
  apply_plain-IsValid (gc success message pid) app a b v = push_log-IsValid now _ _ _ v
