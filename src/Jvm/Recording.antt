-- ===== src/Jvm/Recording.antt =====
-- jvm.rs: Java Flight Recorder. Its commands, and the execution samples that `jfr print` lists.
pub mod Samples
use oprofiler.Base.{
  List, [], ◌∷◌, true, false, none, some, ℕ, Bool, Option, Result, get_elem?, if◌then◌else◌, ◌+◌,
  ◌++◌, min, take, done, ◌*◌, map_err, ◌^◌, ltb, ◌>>=◌, not, ◌-◌, map, max, ◌&&◌, failed,
}
use oprofiler.Base.Text.{Text, trim, text_eq, codes, starts_with, lines}
use oprofiler.Base.Maps.{lookup, insert}
use oprofiler.Base.Sort.{sort_by}
use oprofiler.Jvm.Output.{on_success, Output}
use oprofiler.Model.Threads.{full_name, StackTraceElement}
use oprofiler.Model.Floats.{Host}
use oprofiler.Model.Rows.{CpuMethodRow}
use oprofiler.Jvm.ThreadDump.{parse_stack_trace_element}

abbrev jfr_answer : Text → Text → Result Output → Result Text
jfr_answer command context ran =
    on_success command context ran (λ output. done (trim output.stdout))

-- The command is given again, once, if it has failed. `runs` are the answers to the two runs.
unfoldable pub start_jfr_recording : Result Output × Result Output → Result Text
unfolding on_success
start_jfr_recording (first, second) =
    let context = codes "failed to start JFR: " in
    map_err (λ err. context ++ err) first >>= λ output.
    jfr_answer (codes "jcmd JFR.start") context (if output.success then done output else second)

unfoldable pub dump_jfr_recording : Result Output → Result Text
unfolding on_success
dump_jfr_recording ran = jfr_answer (codes "jcmd JFR.dump") (codes "failed to dump JFR: ") ran

unfoldable pub stop_jfr_recording : Result Output → Result Text
unfolding on_success
stop_jfr_recording ran = jfr_answer (codes "jcmd JFR.stop") (codes "failed to stop JFR: ") ran

-- What is counted under a method's name.
pub record MethodCount : Type 0 where
  pub samples : ℕ
  pub invocations : ℕ
  pub class_name : Text
  pub method_name : Text

-- The variables of the loop over the lines. The keys of the map are kept in the order in which they
-- came in; the code's `HashMap` has an order of its own.
pub record JfrScan : Type 0 where
  pub in_event : Bool
  pub in_stack : Bool
  pub stack_lines : List Text
  pub counts : List (Text × MethodCount)

abbrev pub count_or : Option MethodCount → MethodCount → MethodCount
count_or none d = d
count_or (some c) d = c

unfoldable pub count_leaf :
    StackTraceElement → List (Text × MethodCount) → List (Text × MethodCount)
unfolding full_name
count_leaf ste counts =
    let key = full_name ste in
    let entry = count_or (lookup text_eq key counts) (record {
      samples = 0;
      invocations = 0;
      class_name = ste.class_name;
      method_name = ste.method_name;
    }) in
    insert text_eq key
      (record entry { samples = entry.samples + 1; invocations = entry.invocations + 1 }) counts

-- The end of a stack: its first line is counted. `none` is the panic of the frame's parser.
unfoldable pub end_stack : JfrScan → Option JfrScan
unfolding count_leaf
end_stack s =
    let closed = λ (counts : List (Text × MethodCount)). record s {
      in_event = false;
      in_stack = false;
      stack_lines = [];
      counts = counts;
    } in
    elim (get_elem? s.stack_lines 0) [
      | none ↦ some (closed s.counts)
      | some leaf ↦ elim (parse_stack_trace_element leaf) [
        | none ↦ none
        | some ste ↦ some (closed (count_leaf ste s.counts))
      ]
    ]

-- The end of a round: a line within a stack is kept, and a closing brace outside one ends the event.
unfoldable pub within_event : Text → JfrScan → JfrScan
within_event trimmed s =
    if s.in_stack
    then record s { stack_lines = s.stack_lines ++ trimmed ∷ [] }
    else if text_eq trimmed (codes "}")
    then record s { in_event = false; stack_lines = [] }
    else s

unfoldable pub scan_line : Text → JfrScan → Option JfrScan
unfolding end_stack within_event
scan_line line s =
    let trimmed = trim line in
    if text_eq trimmed (codes "jdk.ExecutionSample {")
    then some (record s { in_event = true; in_stack = false; stack_lines = [] })
    else if not s.in_event
    then some s
    else if starts_with trimmed (codes "stackTrace = [")
    then some (record s { in_stack = true })
    else if s.in_stack && text_eq trimmed (codes "]")
    then end_stack s
    else some (within_event trimmed s)

unfoldable pub scan_lines : List Text → JfrScan → Option JfrScan
unfolding scan_line
scan_lines [] s = some s
scan_lines (line ∷ rest) s = elim (scan_line line s) [ none ↦ none | some s' ↦ scan_lines rest s' ]

unfoldable pub start_scan : JfrScan
start_scan = record { in_event = false; in_stack = false; stack_lines = []; counts = [] }

unfoldable pub total_samples : List (Text × MethodCount) → ℕ
total_samples [] = 0
total_samples ((key, c) ∷ rest) = c.samples + total_samples rest

module _ {F : Type 0} (host : Host F) where
  unfoldable pub sample_row : ℕ → Text × MethodCount → CpuMethodRow F
  sample_row total (method, c) =
      let self_nanos = min (c.samples * 20_000_000) (2 ^ 64 - 1) in
      let ms = host.div (host.of_nat self_nanos) (host.of_nat 1_000_000) in
      record {
        method_id = none;
        method = method;
        total_samples = c.samples;
        self_samples = c.samples;
        total_ms = ms;
        self_ms = ms;
        percent = host.as_f32 (host.div (host.of_nat c.samples) (host.of_nat total));
        class_name = c.class_name;
        method_name = c.method_name;
        descriptor = [];
        invocations = c.invocations;
        average_nanos =
            if ltb 0 c.invocations
            then host.div (host.of_nat self_nanos) (host.of_nat c.invocations)
            else host.of_nat 0;
      }

  unfoldable pub sample_rows : List (Text × MethodCount) → List (CpuMethodRow F)
  unfolding sample_row total_samples
  sample_rows counts = take 250 (
      sort_by (λ a b. ltb b.self_samples a.self_samples)
        (map (sample_row (max (total_samples counts) 1)) counts))

  abbrev samples_answer : Result Output → Option (Result (List (CpuMethodRow F)))
  samples_answer (failed err) = some (failed err)
  samples_answer (done output) = elim (scan_lines (lines output.stdout) start_scan) [
    | none ↦ none
    | some s ↦ some (done (sample_rows s.counts))
  ]

  -- `ran` is what running `jfr print` gives; `none` is a panic of the frame's parser.
  unfoldable pub parse_jfr_execution_samples :
      Result Output → Option (Result (List (CpuMethodRow F)))
  unfolding scan_lines start_scan sample_rows on_success
  parse_jfr_execution_samples ran = samples_answer (
      on_success (codes "jfr print") (codes "failed to run jfr print: ") ran
        (λ output. done output))
