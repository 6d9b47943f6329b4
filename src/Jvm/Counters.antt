-- ===== src/Jvm/Counters.antt =====
-- jvm.rs: the process, heap and collector counters, read from what the tools print.
use oprofiler.Base.{
  List, [], ◌∷◌, none, some, Option, get_elem?, if◌then◌else◌, ℕ, Bool, reverse, find_first, ◌^◌,
  not, ◌||◌, ◌&&◌, ◌+◌, ◌-◌, is_empty, ◌%◌, ◌/◌, ◌==◌, drop, length,
}
use oprofiler.Base.Options.{◌>>=◌, unwrap_or, or_else}
use oprofiler.Base.Text.{
  Text, find_text, trim, split_char, contains_text, parse_radix, codes, split_whitespace, lines,
  split_by, is_whitespace, trim_end_matches,
}
use oprofiler.Model.Floats.{Host}
use oprofiler.Jvm.Output.{Output}
use oprofiler.Model.Rows.{ProcessSnapshot, GcSnapshot, HeapSnapshot}

-- The output of a tool that was run and succeeded.
abbrev printed : Option Output → Option Text
printed none = none
printed (some output) = if output.success then some output.stdout else none

abbrev last_word : Text → Option Text
last_word line = get_elem? (reverse (split_whitespace line)) 0

module _ {F : Type 0} (host : Host F) where
  -- `parse::<f64>`.
  unfoldable pub parse_float : Text → Option F
  parse_float t = if host.parses t then some (host.parse_f64 t) else none

  abbrev in_mb : F → F
  in_mb bytes = host.div (host.div bytes (host.of_nat 1024)) (host.of_nat 1024)

  unfoldable pub process_of : List Text → Option (ProcessSnapshot F)
  unfolding parse_float
  process_of (cpu ∷ working_set ∷ private_size ∷ threads ∷ handles ∷ rest) = do
    cpu_seconds ← parse_float (trim cpu)
    working ← parse_float (trim working_set)
    private_bytes ← parse_float (trim private_size)
    thread_count ← parse_radix 10 (2 ^ 64 - 1) (trim threads)
    handle_count ← parse_radix 10 (2 ^ 64 - 1) (trim handles)
    some (record {
      cpu_seconds = cpu_seconds;
      working_set_mb = in_mb working;
      private_mb = in_mb private_bytes;
      thread_count = thread_count;
      handle_count = handle_count;
    })
  process_of _ = none

  -- `ran` is what running PowerShell gives, or none where it cannot be run.
  unfoldable pub query_process : Option Output → Option (ProcessSnapshot F)
  unfolding process_of
  query_process ran = do text ← printed ran; process_of (split_char b'|' (trim text))

  unfoldable pub extract_k_value_after : Text → Text → Option F
  unfolding parse_float
  extract_k_value_after line marker = do
    start ← find_text line marker
    token ←
        find_first (λ part. not (is_empty part))
          (split_by (λ c. c == b',' || is_whitespace c) (drop (start + length marker) line))
    parse_float (trim_end_matches (λ c. c == b'k') (trim_end_matches (λ c. c == b'K') token))

  -- One line adds to the memory in use and to the memory in total.
  unfoldable pub add_heap_line : Text → F × F → F × F
  unfolding extract_k_value_after
  add_heap_line line (used_k, total_k) = (
    if contains_text line (codes "used ") || contains_text line (codes "used=")
        then host.add used_k (
            unwrap_or
              (or_else (extract_k_value_after line (codes "used "))
                (extract_k_value_after line (codes "used=")))
              (host.of_nat 0))
        else used_k,
    if contains_text line (codes "total ") || contains_text line (codes "committed ")
        then host.add total_k (
            unwrap_or
              (or_else (extract_k_value_after line (codes "total "))
                (extract_k_value_after line (codes "committed ")))
              (host.of_nat 0))
        else total_k,
  )

  unfoldable pub add_heap_lines : List Text → F × F → F × F
  unfolding add_heap_line
  add_heap_lines [] sums = sums
  add_heap_lines (line ∷ rest) sums = add_heap_lines rest (add_heap_line line sums)

  unfoldable pub query_heap : Option Output → Option (HeapSnapshot F)
  unfolding add_heap_lines
  query_heap ran = do
    text ← printed ran
    let (used_k, total_k) = add_heap_lines (lines text) (host.of_nat 0, host.of_nat 0)
    some (record {
      used_mb = host.div used_k (host.of_nat 1024);
      committed_mb = host.div total_k (host.of_nat 1024);
    })

-- The number at the end of a line, or 0, which adds nothing.
unfoldable pub last_number : Text → ℕ
last_number line = unwrap_or (last_word line >>= parse_radix 10 (2 ^ 64 - 1)) 0

abbrev is_collector_line : Text → Text → Bool
is_collector_line counter line =
    contains_text line (codes "sun.gc.collector") && contains_text line counter

-- The sums wrap around, as the addition of the release build does.
unfoldable pub add_gc_line : Text → GcSnapshot → GcSnapshot
unfolding last_number
add_gc_line line counts = record {
  count =
      if is_collector_line (codes "invocations") line
      then (counts.count + last_number line) % 2 ^ 64
      else counts.count;
  time_ms =
      if is_collector_line (codes ".time") line
      then (counts.time_ms + last_number line / 1_000_000) % 2 ^ 64
      else counts.time_ms;
}

unfoldable pub add_gc_lines : List Text → GcSnapshot → GcSnapshot
unfolding add_gc_line
add_gc_lines [] counts = counts
add_gc_lines (line ∷ rest) counts = add_gc_lines rest (add_gc_line line counts)

unfoldable pub query_gc : Option Output → Option GcSnapshot
unfolding add_gc_lines
query_gc ran = do
  text ← printed ran
  some (add_gc_lines (lines text) (record { count = 0; time_ms = 0 }))
