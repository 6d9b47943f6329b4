-- ===== src/App/Tasks.antt =====
-- app.rs: what the background threads do, the closures that the `spawn` functions pass on. Each asks
-- the tools and the agent, and sends one result.
pub mod Sent
use oprofiler.Base.{
  List, [], ◌∷◌, true, false, none, some, zero, suc, done, failed, Result, ℕ, Option, ◌++◌,
  if◌then◌else◌, sub_i64, Bool, ◌+◌, map, not, ◌||◌, is_empty, leb,
}
use oprofiler.Base.Options.{◌>>=◌}
use oprofiler.Base.Text.{Text, codes, text_eq, to_decimal}
use oprofiler.Base.Maps.{lookup}
use oprofiler.App.State.{
  QueryResult, Task, jvms, jvms_error, telemetry, live_memory_rows, cpu_sample, cpu_instrumentation,
  thread_dump, cpu_recording, gc, refresh_jvms, refresh_telemetry, refresh_live_memory, sample_cpu,
  capture_thread_dump, fetch_cpu_instrumentation, start_recording, stop_recording, gc_run,
  Histogram,
}
use oprofiler.Model.Floats.{Host}
use oprofiler.Jvm.Output.{Output, command_output_message}
use oprofiler.Model.Rows.{
  MemoryClassRow, AllocationHotSpotRow, LiveMemorySnapshot, CpuMethodRow, CpuMethodEdgeRow,
}
use oprofiler.Protocol.Client.{Codec, Connection, client_get_cpu_data}
use oprofiler.Protocol.Messages.{CpuData}
use oprofiler.App.Attach.Start.{
  StartWorld, start_openprofiler_cpu_recording_for_pid, query_allocation_hotspots,
  stop_openprofiler_cpu_recording_on_port,
}
use oprofiler.Jvm.Counters.{query_process, query_heap, query_gc}
use oprofiler.Jvm.Histogram.{query_class_histogram, query_thread_dump}
use oprofiler.Jvm.Targets.{parse_jps_output}
use oprofiler.Protocol.Rows.{cpu_rows_from_agent_data}

-- What the world answers while a thread runs; a process is given by its id, the agent by its port.
pub record TaskWorld : Type 0 where
  pub jps : Result Output
  pub process : ℕ → Option Output
  pub heap : ℕ → Option Output
  pub counters : ℕ → Option Output
  pub histogram : ℕ → Result Output
  pub threads : ℕ → Result Output
  pub collection : ℕ → Result Output
  -- The local time when a dump has been read.
  pub stamp : Text
  pub memory_agent : ℕ → Result Connection
  pub cpu_agent : ℕ → Result Connection
  pub stop_agent : ℕ → Result Connection
  -- The time when the agent is first asked for CPU data, and at the deadline's test of each round.
  pub asks_from : ℕ
  pub asked_at : ℕ → ℕ
  -- A start with the classes to instrument.
  pub start : Option Text → StartWorld

unfoldable pub gc_answer : ℕ → Result Output → {F : Type 0} → QueryResult F
gc_answer pid (failed err) = gc false (codes "failed to execute jcmd: " ++ err) pid
gc_answer pid (done output) =
    if output.success
    then gc true (codes "GC requested for PID " ++ to_decimal pid) pid
    else gc false (command_output_message (codes "jcmd GC.run") output) pid

-- How a row differs from the histogram before.
unfoldable pub with_delta : Histogram → MemoryClassRow → MemoryClassRow
with_delta previous row = elim (lookup text_eq row.name previous) [
  | none ↦ row
  | some (old_instances, old_bytes) ↦ record row {
    delta_instances = sub_i64 row.instances old_instances;
    delta_bytes = sub_i64 row.bytes old_bytes;
  }
]

module _ {F : Type 0} (host : Host F) (codec : Codec F) where
  unfoldable pub jvms_answer : Result Output → QueryResult F
  jvms_answer (failed err) = jvms_error (codes "failed to execute jps: " ++ err)
  jvms_answer (done output) =
      if output.success
      then jvms (parse_jps_output host output.stdout)
      else jvms_error (command_output_message (codes "jps -lv") output)

  unfoldable pub telemetry_answer :
      Option Output → Option Output → Option Output → F → QueryResult F
  telemetry_answer process heap counters elapsed =
      let snapshot = query_process host process in
      telemetry snapshot (query_heap host heap) (query_gc counters) elapsed
        (snapshot >>= λ p. some p.cpu_seconds)

  abbrev hotspots_or_none : Result (List AllocationHotSpotRow) → List AllocationHotSpotRow
  hotspots_or_none (done rows) = rows
  hotspots_or_none (failed err) = []

  abbrev pub memory_result :
      Histogram → Result Connection → Result (List MemoryClassRow) → Result LiveMemorySnapshot
  memory_result previous connected (failed err) = failed err
  memory_result previous connected (done rows) = done (record {
    rows = map (with_delta previous) rows;
    allocation_hotspots = hotspots_or_none (query_allocation_hotspots codec connected);
  })

  unfoldable pub memory_answer : Histogram → Result Output → Result Connection → QueryResult F
  unfolding with_delta
  memory_answer previous ran connected =
      live_memory_rows (memory_result previous connected (query_class_histogram ran))

  abbrev pub has_data : CpuData F → Bool
  has_data data_of =
      not (is_empty data_of.hot_spots)
      || (elim data_of.method_graph [ none ↦ false | some graph ↦ not (is_empty graph.nodes) ])

  abbrev pub ask_interval : ℕ
  ask_interval = 100_000_000

  -- The loop that asks the agent until it has data or the deadline has passed, on fuel; `none` means
  -- that the fuel ran out.
  unfoldable pub ask_rounds : (ℕ → ℕ) → ℕ → ℕ → ℕ → Connection → Option (Result (CpuData F))
  ask_rounds asked_at deadline zero n client = none
  ask_rounds asked_at deadline (suc fuel) n client =
      let (answer, client') = client_get_cpu_data codec client in
      let later = ask_rounds asked_at deadline fuel (n + 1) client' in
      elim answer [
        | failed err ↦ some (failed err)
        | done cpu_data ↦
            if has_data cpu_data || leb deadline (asked_at n) then some (done cpu_data) else later
      ]

  abbrev pub instrumentation :
      Result (CpuData F) → Result (List (CpuMethodRow F) × List CpuMethodEdgeRow)
  instrumentation (failed err) = failed err
  instrumentation (done cpu_data) = done (cpu_rows_from_agent_data host cpu_data)

  -- The deadline is one and a half seconds after the connection.
  unfoldable pub instrumentation_answer : (ℕ → ℕ) → ℕ → Result Connection → Option (QueryResult F)
  unfolding ask_rounds
  instrumentation_answer asked_at from (failed err) = some (cpu_instrumentation (failed err))
  instrumentation_answer asked_at from (done client) =
      ask_rounds asked_at (from + 1_500_000_000) 17 0 client >>= λ answer.
      some (cpu_instrumentation (instrumentation answer))

  unfoldable pub start_answer : ℕ → ℕ → Text → Result ℕ → QueryResult F
  start_answer pid preferred_port action (done port) =
      cpu_recording true action
        (codes "CPU recording enabled for JVM "
          ++ (to_decimal pid ++ (codes " on localhost:" ++ to_decimal port)))
        pid port
  start_answer pid preferred_port action (failed message) =
      cpu_recording false action message pid preferred_port

  unfoldable pub stop_answer : ℕ → Result (Unit {0}) → QueryResult F
  stop_answer port (done u) =
      cpu_recording true (codes "Stop CPU")
        (codes "CPU recording stopped on localhost:" ++ to_decimal port) 0 port
  stop_answer port (failed message) = cpu_recording false (codes "Stop CPU") message 0 port

  -- What the thread of a task sends; `none` is a panic of the dump's parser, or a loop's lack of fuel.
  unfoldable pub run_task : TaskWorld → Task F → Option (QueryResult F)
  unfolding jvms_answer telemetry_answer memory_answer instrumentation_answer start_answer
      stop_answer gc_answer
  run_task world refresh_jvms = some (jvms_answer world.jps)
  run_task world (refresh_telemetry pid elapsed) =
      some (telemetry_answer (world.process pid) (world.heap pid) (world.counters pid) elapsed)
  run_task world (refresh_live_memory pid previous port) =
      some (memory_answer previous (world.histogram pid) (world.memory_agent port))
  run_task world (sample_cpu pid thread_status) =
      query_thread_dump world.stamp (world.threads pid) >>= λ result.
      some (cpu_sample result thread_status)
  run_task world (capture_thread_dump pid) =
      query_thread_dump world.stamp (world.threads pid) >>= λ result. some (thread_dump result)
  run_task world (fetch_cpu_instrumentation port) =
      instrumentation_answer world.asked_at world.asks_from (world.cpu_agent port)
  run_task world (start_recording pid port action includes) =
      start_openprofiler_cpu_recording_for_pid codec (world.start includes) pid port >>= λ result.
      some (start_answer pid port action result)
  run_task world (stop_recording port) = some (
      stop_answer port (stop_openprofiler_cpu_recording_on_port codec (world.stop_agent port) port))
  run_task world (gc_run pid) = some (gc_answer pid (world.collection pid))
