-- ===== src/Tests/Sessions.antt =====
-- A benchmark, a listing of hot spots, the output of a tool, recorded samples, and a poll.
use oprofiler.Base.{
  ℕ, suc, ◌+◌, ◌≤◌, ◌≡◌, ◌≢◌, ◌++◌, refl, [], ◌∷◌, List, none, some, Option, arith, true, false,
  map, length, Result, done, failed, inl, inr, All, pos,
}
use oprofiler.Base.Text.{Text, codes}
use oprofiler.Base.Sort.{IsSorted}
use mathlib.Core.List.{Perm}
use oprofiler.Tests.Values.{whole_host, clock}
use oprofiler.Protocol.Messages.{HotSpot, cpu_data}
use oprofiler.Protocol.Frames.{frame, timed_out}
use oprofiler.Protocol.Client.{Codec, Connection}
use oprofiler.Benchmark.{Bench, Measurement, idle, idle_after, start_bench}
use oprofiler.Benchmark.Screen.{blue, indicator}
use oprofiler.Benchmark.Phases.{
  indicator-blue, Passed, tag, Turns, played, rounds, Turns-Passed, rounds_complete,
}
use oprofiler.Once.{longer, database_rows, hotspot_rows}
use oprofiler.Once.Split.{rows_split}
use oprofiler.Jvm.Output.{Output, output_lines, append_command_output}
use oprofiler.Jvm.Output.Logged.{log_line, append_command_output-logs}
use oprofiler.Jvm.Recording.{JfrScan, scan_lines, start_scan, total_samples}
use oprofiler.Jvm.Recording.Samples.{
  PrintedEvent, IsPrinted, listing, count_all, scan_lines-listing,
}
use oprofiler.App.State.{App, QueryHandle, new, gc_run, gc}
use oprofiler.App.Results.{poll_queries}
use oprofiler.App.Invariant.{IsValid}
use oprofiler.App.Invariant.Answered.{poll_queries-settles}

-- An agent that answers every command with the same CPU data.
abbrev spot : Text → ℕ → HotSpot ℕ
spot class_name nanos = record {
  class_name = class_name;
  method_name = codes "run";
  method_descriptor = codes "()V";
  self_samples = 1;
  total_samples = 1;
  self_duration_nano = nanos;
  total_duration_nano = nanos;
  percent = 1;
  invocations = 1;
}

abbrev spots : List (HotSpot ℕ)
spots = spot (codes "shop.Cart") 10 ∷ spot (codes "SQL") 20 ∷ spot (codes "shop.Main") 30 ∷ []

abbrev busy_codec : Codec ℕ
busy_codec = record {
  encode = λ cmd. cmd.command_type ∷ [];
  decode = λ bytes. inl (record {
    data_type = 1;
    timestamp_nano = 0;
    payload = some (
        cpu_data (record {
          total_sample_count = 3;
          sampling_interval_ms = 10;
          method_graph = none;
          call_tree = none;
          hot_spots = spots;
        }));
  });
  io_text = λ e. codes "timed out";
}

abbrev lively : Connection
lively = record {
  write_fails = none;
  written = [];
  incoming = record {
    arrived = frame (1 ∷ []) ++ (frame (1 ∷ []) ++ frame (1 ∷ []));
    stop = timed_out;
  };
}

abbrev measurement : Measurement
measurement = record { elapsed = 200_000_000; connected = done lively }

abbrev measurements : List Measurement
measurements = measurement ∷ measurement ∷ measurement ∷ []

enough_played : 2 ≤ length (played whole_host busy_codec measurements idle lively)
unfolding played frame oprofiler.Benchmark.run_phase oprofiler.Protocol.Client.start_cpu_recording
    oprofiler.Protocol.Client.stop_cpu_recording oprofiler.Protocol.Frames.read_payload
    oprofiler.Protocol.Client.client_get_cpu_data
enough_played = omega arith

rounds_complete_example :
    ((rounds whole_host busy_codec measurements (start_bench lively)).results
      ≡ played whole_host busy_codec measurements idle lively)
    × (((rounds whole_host busy_codec measurements (start_bench lively)).current_phase ≡ idle_after)
        × Turns whole_host busy_codec
            (rounds whole_host busy_codec measurements (start_bench lively)))
rounds_complete_example = rounds_complete whole_host busy_codec lively measurements enough_played

abbrev completed : Bench ℕ
completed = rounds whole_host busy_codec measurements (start_bench lively)

Turns-Passed_example : Passed completed.current_phase (map tag completed.results)
Turns-Passed_example = Turns-Passed whole_host busy_codec completed rounds_complete_example.1.1

indicator-blue_example : indicator completed idle_after ≢ blue
indicator-blue_example = indicator-blue whole_host busy_codec completed rounds_complete_example.1.1

rows_split_example :
    All (λ row. row.class_name ≡ codes "SQL") (database_rows spots)
    × (All (λ row. row.class_name ≢ codes "SQL") (hotspot_rows spots)
        × (Perm (database_rows spots ++ hotspot_rows spots) spots
            × (IsSorted longer (database_rows spots) × IsSorted longer (hotspot_rows spots))))
rows_split_example = rows_split spots

abbrev two_lines : Output
two_lines = record {
  success = true;
  status = codes "exit code: 0";
  stdout = codes "4711:" ++ (10 ∷ codes " started ");
  stderr = [];
}

append_command_output-logs_example :
    (append_command_output (codes "12:00:00") [] (codes "Attach") two_lines
      ≡ map (log_line (codes "12:00:00") (codes "Attach")) (output_lines two_lines) ++ [])
    × (length (output_lines two_lines) ≤ 8)
append_command_output-logs_example =
    append_command_output-logs (codes "12:00:00") [] (codes "Attach") two_lines

abbrev event : PrintedEvent
event = record {
  head = codes "jdk.ExecutionSample {";
  fields = codes "  startTime = 12:00:00" ∷ [];
  opening = codes "  stackTrace = [";
  top = codes "    shop.Cart.add(Cart.java:7)";
  below = codes "    shop.Main.main(Main.java:3)" ∷ [];
  closing = codes "  ]";
  ending = codes "}";
  leaf = record {
    class_name = codes "shop.Cart";
    method_name = codes "add";
    descriptor = [];
    file_name = some (codes "Cart.java");
    line_number = some 7;
    native_method = false;
    raw = codes "shop.Cart.add(Cart.java:7)";
  };
}

event-IsPrinted : IsPrinted event
unfolding oprofiler.Base.Text.trim oprofiler.Base.Text.text_eq oprofiler.Base.Text.starts_with
    oprofiler.Jvm.ThreadDump.parse_stack_trace_element oprofiler.Base.Text.rfind_char
    oprofiler.Base.Text.find_char oprofiler.Base.Text.parse_radix oprofiler.Base.Text.digit_value
event-IsPrinted = (
  refl,
  (
    ((refl, (refl, refl)), tt),
    (
      (refl, refl),
      (((refl, (refl, refl)), refl), (((refl, (refl, refl)), tt), ((refl, (refl, refl)), refl))),
    ),
  ),
)

scan_lines-listing_example :
    (s : JfrScan) × ((scan_lines (listing (event ∷ event ∷ [])) start_scan ≡ some s)
      × ((s.counts ≡ count_all (event ∷ event ∷ []) [])
          × (total_samples s.counts ≡ length (event ∷ event ∷ []))))
scan_lines-listing_example =
    scan_lines-listing (event ∷ event ∷ []) (event-IsPrinted, (event-IsPrinted, tt))

-- A request to the collector that has been answered.
abbrev collected : QueryHandle ℕ
collected = record { task = gc_run 4711; rx = some (gc true [] 4711) }

abbrev waiting : App ℕ
waiting = record (new whole_host (clock 100)) { pending_queries = collected ∷ [] }

waiting-IsValid : IsValid waiting
unfolding new
waiting-IsValid = ground arith

answered : collected.rx ≢ none
answered e = absurd (ground (arith, e))

poll_queries-settles_example :
    ((poll_queries whole_host (clock 101) waiting).pending_queries ≡ [])
    × (((poll_queries whole_host (clock 101) waiting).cpu_recording_start_pending ≡ false)
        × ((poll_queries whole_host (clock 101) waiting).cpu_recording_stop_pending ≡ false))
unfolding oprofiler.Model.Views.same_view new
poll_queries-settles_example =
    poll_queries-settles whole_host (clock 101) waiting waiting-IsValid (answered, tt) refl
