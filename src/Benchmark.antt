-- ===== src/Benchmark.antt =====
-- crates/tui/src/benchmark.rs: the overhead benchmark, three phases that the user starts one by one.
pub mod Phases
pub mod Screen
use oprofiler.Base.{
  List, [], ◌∷◌, true, false, none, some, ◌>>=◌, Bool, ℕ, Option, Result, done, map_err, failed,
  ◌++◌, if◌then◌else◌, ◌==◌,
}
use oprofiler.Base.Text.{Text, codes}
use oprofiler.Protocol.Client.{
  Connection, Codec, stop_cpu_recording, start_cpu_recording, client_get_cpu_data,
}
use oprofiler.Model.Floats.{Host}
use oprofiler.Event.{KeyCode, KeyEvent, char, esc, enter, is_pressed}

pub data BenchmarkPhase : Type 0 where
  idle profiling idle_after : BenchmarkPhase

pub record BenchmarkResult (F : Type 0) : Type 0 where
  pub phase : BenchmarkPhase
  pub elapsed_ms : F
  pub ns_per_call : F

-- The variables of the loop; `running` is false behind the `break`.
pub record Bench (F : Type 0) : Type 0 where
  pub results : List (BenchmarkResult F)
  pub current_phase : BenchmarkPhase
  pub waiting_for_input : Bool
  pub message : Text
  pub error_msg : Option Text
  pub client : Connection
  pub running : Bool

-- What the world answers while a phase runs: the time that it takes, in nanoseconds, and the
-- connection that the profiling phase opens.
pub record Measurement : Type 0 where
  pub elapsed : ℕ
  pub connected : Result Connection

abbrev pub call_count : ℕ
call_count = 100_000_000

-- `{:?}`.
unfoldable pub phase_name : BenchmarkPhase → Text
phase_name idle = codes "Idle"
phase_name profiling = codes "Profiling"
phase_name idle_after = codes "IdleAfter"

unfoldable pub start_bench : {F : Type 0} → Connection → Bench F
start_bench client = record {
  results = [];
  current_phase = idle;
  waiting_for_input = true;
  message = codes "Press Enter to start benchmark";
  error_msg = none;
  client = client;
  running = true;
}

module _ {F : Type 0} (host : Host F) (codec : Codec F) where
  abbrev measured : BenchmarkPhase → ℕ → BenchmarkResult F
  measured phase elapsed = record {
    phase = phase;
    elapsed_ms = host.mul (host.as_secs elapsed) (host.of_nat 1000);
    ns_per_call = host.div (host.of_nat elapsed) (host.of_nat call_count);
  }

  -- The loop of additions has no effect but the time that it takes.
  unfoldable pub run_idle_phase : Measurement → Result (BenchmarkResult F)
  run_idle_phase m = done (measured idle m.elapsed)

  unfoldable pub run_profiling_phase : Measurement → Result (BenchmarkResult F)
  run_profiling_phase m = do
    client ← map_err (λ e. codes "Failed to connect: " ++ e) m.connected
    _ ← map_err (λ e. codes "get_cpu_data failed: " ++ e) (client_get_cpu_data codec client).0
    done (measured profiling m.elapsed)

  abbrev after_command :
      Text
      → Result (Unit {0}) × Connection
      → Result (BenchmarkResult F)
      → Result (BenchmarkResult F) × Connection
  after_command context (done u, client) result = (result, client)
  after_command context (failed e, client) result = (failed (context ++ e), client)

  -- The phase's result, and the client after its command.
  unfoldable pub run_phase :
      Measurement → BenchmarkPhase → Connection → Result (BenchmarkResult F) × Connection
  unfolding run_idle_phase run_profiling_phase
  run_phase m idle client = (run_idle_phase m, (stop_cpu_recording codec client).1)
  run_phase m profiling client =
      after_command (codes "Failed to start recording: ") (start_cpu_recording codec client)
        (run_profiling_phase m)
  run_phase m idle_after client =
      after_command (codes "Failed to stop recording: ") (stop_cpu_recording codec client)
        (run_idle_phase m)

  -- What a result does; after the last phase the phase stays.
  unfoldable pub conclude_phase : Result (BenchmarkResult F) → Bench F → Bench F
  unfolding phase_name
  conclude_phase (failed e) b = record b {
    error_msg = some e;
    message = codes "Error occurred. Press R to reset, Q to quit";
    waiting_for_input = true;
  }
  conclude_phase (done result) b =
      let moved = λ (phase : BenchmarkPhase). record b {
        results = b.results ++ result ∷ [];
        current_phase = phase;
        message =
            codes "Phase complete. Press Enter for next phase (" ++ (phase_name phase ++ codes ")");
        waiting_for_input = true;
      } in
      elim b.current_phase [
        | idle ↦ moved profiling
        | profiling ↦ moved idle_after
        | idle_after ↦ record b {
          results = b.results ++ result ∷ [];
          message = codes "Benchmark complete. Press R to reset, Q to quit";
          waiting_for_input = true;
        }
      ]

  -- A turn while a phase runs.
  unfoldable pub run_turn : Measurement → Bench F → Bench F
  unfolding run_phase conclude_phase
  run_turn m b =
      let (result, client) = run_phase m b.current_phase b.client in
      conclude_phase result (record b { client = client })

  unfoldable pub bench_key : KeyCode → Bench F → Bench F
  bench_key (char c) b =
      if c == b'q'
      then record b { running = false }
      else if c == b'r'
      then record b {
        results = [];
        current_phase = idle;
        message = codes "Reset. Press Enter to start";
        error_msg = none;
        client = (stop_cpu_recording codec b.client).1;
      }
      else b
  bench_key esc b = record b { running = false }
  bench_key enter b = record b {
    waiting_for_input = false;
    message = codes "Running...";
    error_msg = none;
  }
  bench_key _ b = b

  -- A turn with an event while the benchmark waits; without a key event nothing happens.
  unfoldable pub input_turn : Option KeyEvent → Bench F → Bench F
  unfolding bench_key
  input_turn none b = b
  input_turn (some key) b = if is_pressed key.kind then bench_key key.key_code b else b
