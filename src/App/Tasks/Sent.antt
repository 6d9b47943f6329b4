-- ===== src/App/Tasks/Sent.antt =====
-- app.rs: what the background threads send, and that they send something.
use oprofiler.Base.{
  ◌++◌, ◌⊎◌, ℕ, zero, suc, ◌+◌, ◌*◌, ◌≤◌, ◌≡◌, List, Option, none, some, All, Result-cases, Result,
  done, failed, inl, inr, refl, ap, ◌∙◌, arith, Bool-cases, leb, true, false, Bool, ◌||◌,
  if◌then◌else◌,
}
use oprofiler.Base.Options.{◌>>=◌}
use oprofiler.Base.Text.{Text, lines, codes, to_decimal}
use oprofiler.Model.Floats.{Host}
use oprofiler.Protocol.Client.{Codec, Connection, client_get_cpu_data}
use oprofiler.Jvm.Output.{Output, on_success, command_output_message}
use oprofiler.Jvm.Histogram.{query_thread_dump, dump_answer, dump_of, query_class_histogram}
use oprofiler.Jvm.ThreadDump.{parse_thread_dump}
use oprofiler.Jvm.ThreadDump.Frames.{
  HasParensInOrder, ParsesMatched, parse_thread_dump-ParsesMatched,
}
use oprofiler.App.State.{
  QueryResult, Task, jvms, jvms_error, cpu_sample, cpu_instrumentation, thread_dump, gc,
  refresh_jvms, refresh_telemetry, refresh_live_memory, sample_cpu, capture_thread_dump,
  fetch_cpu_instrumentation, start_recording, stop_recording, gc_run,
}
use oprofiler.App.Flight.{Answers}
use oprofiler.App.Attach.Start.Waiting.{Paced}
use oprofiler.App.Attach.Start.Outcome.{start_openprofiler_cpu_recording_for_pid-returns}
use oprofiler.App.Tasks.{
  TaskWorld, has_data, ask_rounds, jvms_answer, stop_answer, start_answer, gc_answer, run_task,
  instrumentation_answer, instrumentation, telemetry_answer, memory_answer, memory_result,
}
use oprofiler.Protocol.Messages.{CpuData}
use oprofiler.Model.Threads.{ThreadDump, ThreadInfo}
use oprofiler.Jvm.Counters.{query_process, query_heap, query_gc}
use oprofiler.App.Attach.Start.{
  start_openprofiler_cpu_recording_for_pid, stop_openprofiler_cpu_recording_on_port,
}
use oprofiler.Jvm.Targets.{parse_jps_output}

-- What the world is asked to be: the loops' rounds are as far apart as their sleeps, and a dump's
-- frames have their parentheses in order.
abbrev pub IsSane : TaskWorld → Type 0
IsSane world =
    ((includes : Option Text) (port : ℕ)
      → Paced ((world.start includes).waits_from) ((world.start includes).rounds port))
    × (((world.asks_from ≤ world.asked_at 0)
          × ((k : ℕ) → world.asked_at k + 100_000_000 ≤ world.asked_at (suc k)))
        × ((pid : ℕ) (output : Output)
            → world.threads pid ≡ done output
            → All HasParensInOrder (lines output.stdout)))

module _ {F : Type 0} (host : Host F) (codec : Codec F) where
  abbrev Sends : Task F → Option (QueryResult F) → Type 0
  Sends task ran = (r : QueryResult F) × ((ran ≡ some r) × Answers task r)

  ask_rounds-again :
      (asked_at : ℕ → ℕ) (deadline fuel n : ℕ) (client : Connection) (cpu_data : CpuData F)
      → (client_get_cpu_data codec client).0 ≡ done cpu_data
      → (has_data host codec cpu_data || leb deadline (asked_at n)) ≡ false
      → ask_rounds host codec asked_at deadline (suc fuel) n client
        ≡ ask_rounds host codec asked_at deadline fuel (suc n) (client_get_cpu_data codec client).1
  unfolding ask_rounds
  ask_rounds-again asked_at deadline fuel n client cpu_data e on =
      rw (e, on, ask_rounds)
        (ap
          (λ k. ask_rounds host codec asked_at deadline fuel k (client_get_cpu_data codec client).1)
          (let next : n + 1 ≡ suc n = omega arith in next))

  ask_rounds-returns :
      (asked_at : ℕ → ℕ) (deadline fuel n : ℕ) (client : Connection)
      → ((k : ℕ) → asked_at k + 100_000_000 ≤ asked_at (suc k))
      → deadline ≤ asked_at n + fuel * 100_000_000
      → (answer : Result (CpuData F)) × (ask_rounds host codec asked_at deadline (suc fuel) n client
          ≡ some answer)
  unfolding ask_rounds
  ask_rounds-returns asked_at deadline zero n client paced enough =
      elim (Result-cases (client_get_cpu_data codec client).0) [
        | inr (err, e) ↦ (failed err, rw (e, ask_rounds) refl)
        | inl (cpu_data, e) ↦
            let over : (has_data host codec cpu_data || leb deadline (asked_at n)) ≡ true =
              ground (arith, enough) in
            (done cpu_data, rw (e, over, ask_rounds) refl)
      ]
  ask_rounds-returns asked_at deadline (suc fuel) n client paced enough =
      elim (Result-cases (client_get_cpu_data codec client).0) [
        | inr (err, e) ↦ (failed err, rw (e, ask_rounds) refl)
        | inl (cpu_data, e) ↦
            elim (Bool-cases (has_data host codec cpu_data || leb deadline (asked_at n))) [
              | inl stop ↦ (done cpu_data, rw (e, stop, ask_rounds) refl)
              | inr on ↦
                  let later = paced n in
                  let (answer, e') =
                    ask_rounds-returns asked_at deadline fuel (suc n)
                      (client_get_cpu_data codec client).1 paced (omega (arith, later, enough)) in
                  (
                    answer,
                    ask_rounds-again asked_at deadline (suc fuel) n client cpu_data e on ∙ e',
                  )
            ]
      ]

  either_of :
      (b : Bool) (x y : QueryResult F) → ((if b then x else y) ≡ x) ⊎ ((if b then x else y) ≡ y)
  either_of true x y = inl refl
  either_of false x y = inr refl

  jvms_answer-Answers : (ran : Result Output) → Answers refresh_jvms (jvms_answer host codec ran)
  unfolding jvms_answer
  jvms_answer-Answers (failed err) = inr (codes "failed to execute jps: " ++ err, refl)
  jvms_answer-Answers (done output) =
      let targets = parse_jps_output host output.stdout in
      let message = command_output_message (codes "jps -lv") output in
      elim (either_of output.success (jvms targets) (jvms_error message)) [
        | inl e ↦ inl (targets, e)
        | inr e ↦ inr (message, e)
      ]

  parsed-returns :
      (stamp raw : Text) (parsed : Option (List ThreadInfo))
      → ParsesMatched parsed
      → (result : Result ThreadDump) × (dump_of stamp raw parsed ≡ some result)
  parsed-returns stamp raw none p = absurd p
  parsed-returns stamp raw (some threads) p =
      (done (record { captured_at = stamp; raw = raw; threads = threads }), refl)

  used-returns :
      (stamp : Text) (used : Result Output)
      → ((output : Output) → used ≡ done output → All HasParensInOrder (lines output.stdout))
      → (result : Result ThreadDump) × (dump_answer stamp used ≡ some result)
  used-returns stamp (failed err) safe = (failed err, refl)
  used-returns stamp (done output) safe =
      parsed-returns stamp output.stdout (parse_thread_dump output.stdout)
        (parse_thread_dump-ParsesMatched output.stdout (safe output refl))

  chosen :
      (success : Bool) (o output : Output) (message : Text)
      → (if success then done o else failed message) ≡ done output
      → done o ≡ done output
  chosen true o output message used = used
  chosen false o output message used = absurd (ground (arith, used))

  on_success-done :
      (command context : Text) (ran : Result Output) (output : Output)
      → on_success command context ran (λ o. done o) ≡ done output
      → ran ≡ done output
  unfolding on_success
  on_success-done command context (failed err) output used = absurd (ground (arith, used))
  on_success-done command context (done o) output used =
      chosen o.success o output (command_output_message command o) used

  dump_answer-returns :
      (stamp : Text) (ran : Result Output)
      → ((output : Output) → ran ≡ done output → All HasParensInOrder (lines output.stdout))
      → (result : Result ThreadDump) × (query_thread_dump stamp ran ≡ some result)
  unfolding query_thread_dump
  dump_answer-returns stamp ran safe =
      let command = codes "jcmd Thread.print" in
      let context = codes "failed to execute jcmd Thread.print: " in
      used-returns stamp (on_success command context ran (λ output. done output))
        (λ output used. safe output (on_success-done command context ran output used))

  bound-Sends :
      {A : Type 0} (task : Task F) (ran : Option A) (answer : A → QueryResult F)
      → ((a : A) × (ran ≡ some a))
      → ((a : A) → Answers task (answer a))
      → Sends task (ran >>= λ a. some (answer a))
  bound-Sends task none answer (a, e) answers = absurd (ground (arith, e))
  bound-Sends task (some a) answer returned answers = (answer a, (refl, answers a))

  instrumentation_answer-Sends :
      (port : ℕ) (asked_at : ℕ → ℕ) (from : ℕ) (connected : Result Connection)
      → from ≤ asked_at 0
      → ((k : ℕ) → asked_at k + 100_000_000 ≤ asked_at (suc k))
      → Sends
          (fetch_cpu_instrumentation port)
          (instrumentation_answer host codec asked_at from connected)
  unfolding instrumentation_answer
  instrumentation_answer-Sends port asked_at from (failed err) first paced =
      (cpu_instrumentation (failed err), (refl, (failed err, refl)))
  instrumentation_answer-Sends port asked_at from (done client) first paced =
      bound-Sends (fetch_cpu_instrumentation port)
        (ask_rounds host codec asked_at (from + 1_500_000_000) 17 0 client)
        (λ answer. cpu_instrumentation (instrumentation host codec answer))
        (ask_rounds-returns asked_at (from + 1_500_000_000) 16 0 client paced
          (omega (arith, first)))
        (λ answer. (instrumentation host codec answer, refl))

  start_answer-Answers :
      (pid port : ℕ) (action : Text) (includes : Option Text) (result : Result ℕ)
      → Answers
          (start_recording pid port action includes)
          (start_answer host codec pid port action result)
  unfolding start_answer
  start_answer-Answers pid port action includes (done agent_port) = (
    true,
    codes "CPU recording enabled for JVM "
        ++ (to_decimal pid ++ (codes " on localhost:" ++ to_decimal agent_port)),
    agent_port,
    refl,
  )
  start_answer-Answers pid port action includes (failed message) = (false, message, port, refl)

  stop_answer-Answers :
      (port : ℕ) (result : Result (Unit {0}))
      → Answers (stop_recording port) (stop_answer host codec port result)
  unfolding stop_answer
  stop_answer-Answers port (done u) =
      (true, codes "CPU recording stopped on localhost:" ++ to_decimal port, refl)
  stop_answer-Answers port (failed message) = (false, message, refl)

  gc_answer-Answers :
      (pid : ℕ) (ran : Result Output) → Answers {F = F} (gc_run pid) (gc_answer pid ran)
  unfolding gc_answer
  gc_answer-Answers pid (failed err) = (false, codes "failed to execute jcmd: " ++ err, refl)
  gc_answer-Answers pid (done output) =
      let requested = codes "GC requested for PID " ++ to_decimal pid in
      let message = command_output_message (codes "jcmd GC.run") output in
      elim (either_of output.success (gc true requested pid) (gc false message pid)) [
        | inl e ↦ (true, requested, e)
        | inr e ↦ (false, message, e)
      ]

  -- If the rounds of the loops are at least their sleeps apart and the frames of a dump have their
  -- parentheses in order, every background thread ends and sends one result of the kind that its
  -- query waits for.
  pub run_task-Sends :
      (world : TaskWorld) (task : Task F)
      → IsSane world
      → (r : QueryResult F) × ((run_task host codec world task ≡ some r) × Answers task r)
  unfolding run_task telemetry_answer memory_answer
  run_task-Sends world refresh_jvms sane =
      (jvms_answer host codec world.jps, (refl, jvms_answer-Answers world.jps))
  run_task-Sends world (refresh_telemetry pid elapsed) sane =
      let process = query_process host (world.process pid) in
      (
        telemetry_answer host codec (world.process pid) (world.heap pid) (world.counters pid)
            elapsed,
        (
          refl,
          (
            process,
            query_heap host (world.heap pid),
            query_gc (world.counters pid),
            (process >>= λ p. some p.cpu_seconds),
            refl,
          ),
        ),
      )
  run_task-Sends world (refresh_live_memory pid previous port) sane = (
    memory_answer host codec previous (world.histogram pid) (world.memory_agent port),
    (
      refl,
      (
        memory_result host codec previous (world.memory_agent port)
            (query_class_histogram (world.histogram pid)),
        refl,
      ),
    ),
  )
  run_task-Sends world (sample_cpu pid thread_status) (starts, (asks, dumps)) =
      bound-Sends (sample_cpu pid thread_status) (query_thread_dump world.stamp (world.threads pid))
        (λ result. cpu_sample result thread_status)
        (dump_answer-returns world.stamp (world.threads pid) (dumps pid)) (λ result. (result, refl))
  run_task-Sends world (capture_thread_dump pid) (starts, (asks, dumps)) =
      bound-Sends (capture_thread_dump pid) (query_thread_dump world.stamp (world.threads pid))
        (λ result. thread_dump result)
        (dump_answer-returns world.stamp (world.threads pid) (dumps pid)) (λ result. (result, refl))
  run_task-Sends world (fetch_cpu_instrumentation port) (starts, ((from, paced), dumps)) =
      instrumentation_answer-Sends port world.asked_at world.asks_from (world.cpu_agent port) from
        paced
  run_task-Sends world (start_recording pid port action includes) (starts, others) =
      let (result, (returned, port_is)) =
        start_openprofiler_cpu_recording_for_pid-returns codec (world.start includes) pid port
          (starts includes) in
      bound-Sends (start_recording pid port action includes)
        (start_openprofiler_cpu_recording_for_pid codec (world.start includes) pid port)
        (start_answer host codec pid port action) (result, returned)
        (start_answer-Answers pid port action includes)
  run_task-Sends world (stop_recording port) sane =
      let result = stop_openprofiler_cpu_recording_on_port codec (world.stop_agent port) port in
      (stop_answer host codec port result, (refl, stop_answer-Answers port result))
  run_task-Sends world (gc_run pid) sane =
      (gc_answer pid (world.collection pid), (refl, gc_answer-Answers pid (world.collection pid)))
