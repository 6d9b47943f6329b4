-- ===== src/App/Flight.antt =====
-- app.rs and jvm.rs: the queries in flight. What a background thread may answer, and how many start
-- and stop requests of the CPU recording are on their way.
use oprofiler.Base.{
  ℕ, ◌+◌, ◌≡◌, Bool, false, List, [], ◌∷◌, ◌++◌, Option, none, some, arith, Result, if◌then◌else◌,
  ◌⊎◌,
}
use oprofiler.Base.Text.{Text, codes, text_eq}
use oprofiler.Model.Rows.{
  JvmTarget, ProcessSnapshot, HeapSnapshot, GcSnapshot, LiveMemorySnapshot, CpuMethodRow,
  CpuMethodEdgeRow,
}
use oprofiler.Model.Threads.{ThreadDump}
use oprofiler.App.State.{
  QueryResult, QueryHandle, Task, jvms, jvms_error, telemetry, live_memory_rows, cpu_sample,
  cpu_instrumentation, thread_dump, cpu_recording, gc, refresh_jvms, refresh_telemetry,
  refresh_live_memory, sample_cpu, capture_thread_dump, fetch_cpu_instrumentation, start_recording,
  stop_recording, gc_run,
}

abbrev pub stop_action : Text
stop_action = codes "Stop CPU"

module _ {F : Type 0} where
  -- The results that the closure of a task can send.
  abbrev pub Answers : Task F → QueryResult F → Type 0
  Answers refresh_jvms r =
      ((targets : List JvmTarget) × (r ≡ jvms targets))
      ⊎ ((message : Text) × (r ≡ jvms_error message))
  Answers (refresh_telemetry pid elapsed) r =
      (process : Option (ProcessSnapshot F)) × (heap : Option (HeapSnapshot F)) × (counts : Option
        GcSnapshot)
      × (cpu_seconds : Option F) × (r ≡ telemetry process heap counts elapsed cpu_seconds)
  Answers (refresh_live_memory pid previous port) r =
      (result : Result LiveMemorySnapshot) × (r ≡ live_memory_rows result)
  Answers (sample_cpu pid thread_status) r =
      (result : Result ThreadDump) × (r ≡ cpu_sample result thread_status)
  Answers (capture_thread_dump pid) r = (result : Result ThreadDump) × (r ≡ thread_dump result)
  Answers (fetch_cpu_instrumentation port) r =
      (result : Result (List (CpuMethodRow F) × List CpuMethodEdgeRow)) × (r
        ≡ cpu_instrumentation result)
  Answers (start_recording pid port action includes) r =
      (success : Bool) × (message : Text) × (agent_port : ℕ) × (r
        ≡ cpu_recording success action message pid agent_port)
  Answers (stop_recording port) r =
      (success : Bool) × (message : Text) × (r ≡ cpu_recording success stop_action message 0 port)
  Answers (gc_run pid) r = (success : Bool) × (message : Text) × (r ≡ gc success message pid)

  abbrev pub task_starts : Task F → ℕ
  task_starts (start_recording pid port action includes) = 1
  task_starts _ = 0

  abbrev pub task_stops : Task F → ℕ
  task_stops (stop_recording port) = 1
  task_stops _ = 0

  abbrev pub result_starts : QueryResult F → ℕ
  result_starts (cpu_recording success action message pid port) =
      if text_eq action stop_action then 0 else 1
  result_starts _ = 0

  abbrev pub result_stops : QueryResult F → ℕ
  result_stops (cpu_recording success action message pid port) =
      if text_eq action stop_action then 1 else 0
  result_stops _ = 0

  -- The start requests among the queries, answered or not, and the stop requests.
  abbrev pub starts : List (QueryHandle F) → ℕ
  starts [] = 0
  starts (h ∷ rest) = task_starts h.task + starts rest

  abbrev pub stops : List (QueryHandle F) → ℕ
  stops [] = 0
  stops (h ∷ rest) = task_stops h.task + stops rest

  -- A start request does not carry the name of the stop request.
  abbrev pub NamedWell : Task F → Type 0
  NamedWell (start_recording pid port action includes) = text_eq action stop_action ≡ false
  NamedWell _ = Unit {0}

  abbrev pub Sent : Task F → Option (QueryResult F) → Type 0
  Sent t none = Unit {0}
  Sent t (some r) = (result_starts r ≡ task_starts t) × (result_stops r ≡ task_stops t)

  -- A query whose answer, if there is one, is of its own kind.
  abbrev pub IsHonest : QueryHandle F → Type 0
  IsHonest h = NamedWell h.task × Sent h.task h.rx

  -- A slot never holds a start or stop request.
  abbrev pub IsQuiet : Option (QueryHandle F) → Type 0
  IsQuiet none = Unit {0}
  IsQuiet (some h) = IsHonest h × (task_starts h.task ≡ 0) × (task_stops h.task ≡ 0)

  -- An answer that the closure can send is of the task's kind.
  pub Answers-Sent : (t : Task F) (r : QueryResult F) → NamedWell t → Answers t r → Sent t (some r)
  Answers-Sent refresh_jvms r n a = ground arith
  Answers-Sent (refresh_telemetry pid elapsed) r n a = ground arith
  Answers-Sent (refresh_live_memory pid previous port) r n a = ground arith
  Answers-Sent (sample_cpu pid thread_status) r n a = ground arith
  Answers-Sent (capture_thread_dump pid) r n a = ground arith
  Answers-Sent (fetch_cpu_instrumentation port) r n a = ground arith
  Answers-Sent (start_recording pid port action includes) r n a = ground arith
  Answers-Sent (stop_recording port) r n a = unfold text_eq in ground arith
  Answers-Sent (gc_run pid) r n a = ground arith

  pub starts-append : (xs ys : List (QueryHandle F)) → starts (xs ++ ys) ≡ starts xs + starts ys
  starts-append [] ys = omega arith
  starts-append (h ∷ xs) ys = omega (arith, starts-append xs ys)

  pub stops-append : (xs ys : List (QueryHandle F)) → stops (xs ++ ys) ≡ stops xs + stops ys
  stops-append [] ys = omega arith
  stops-append (h ∷ xs) ys = omega (arith, stops-append xs ys)
