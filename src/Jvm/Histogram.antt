-- ===== src/Jvm/Histogram.antt =====
-- jvm.rs: the class histogram and the thread dump of a process.
use oprofiler.Base.{
  List, [], ◌∷◌, none, some, ℕ, Option, length, Result, if◌then◌else◌, is_empty, drop, failed, done,
  not, ◌++◌, ◌^◌, ◌||◌, ◌-◌, ◌+◌, ◌==◌, get_elem?, pos,
}
use oprofiler.Base.Options.{unwrap_or}
use oprofiler.Base.Text.{
  Text, split_whitespace, join, trim, codes, lines, parse_radix, ends_with, trim_end_matches,
}
use oprofiler.Model.Rows.{MemoryClassRow}
use oprofiler.Jvm.Output.{on_success, Output}
use oprofiler.Model.Threads.{ThreadInfo, ThreadDump}
use oprofiler.Jvm.ThreadDump.{parse_thread_dump}

abbrev number_or : ℕ → Option Text → ℕ
number_or d none = d
number_or d (some t) = unwrap_or (parse_radix 10 (2 ^ 64 - 1) t) d

-- A row of the table, if the line is one; `so_far` is the number of rows above it.
unfoldable pub histogram_row : ℕ → List Text → Option MemoryClassRow
histogram_row so_far [] = none
histogram_row so_far (rank_token ∷ parts) =
    let name = join (codes " ") (drop 2 parts) in
    if not (ends_with rank_token (codes ":")) || is_empty name
    then none
    else some (record {
      rank = number_or (so_far + 1) (some (trim_end_matches (λ c. c == b':') rank_token));
      name = name;
      instances = number_or 0 (get_elem? parts 0);
      bytes = number_or 0 (get_elem? parts 1);
      delta_instances = pos 0;
      delta_bytes = pos 0;
    })

-- The loop over the lines, with the rows found.
unfoldable pub histogram_rows : List Text → List MemoryClassRow → List MemoryClassRow
unfolding histogram_row
histogram_rows [] rows = rows
histogram_rows (line ∷ rest) rows =
    let row = histogram_row (length rows) (split_whitespace (trim line)) in
    histogram_rows rest (elim row [ none ↦ rows | some r ↦ rows ++ r ∷ [] ])

unfoldable pub rows_or_error : List MemoryClassRow → Result (List MemoryClassRow)
rows_or_error rows =
    if is_empty rows then failed (codes "class histogram returned no rows") else done rows

-- `ran` is what running `jcmd` gives.
unfoldable pub query_class_histogram : Result Output → Result (List MemoryClassRow)
unfolding histogram_rows rows_or_error on_success
query_class_histogram ran =
    on_success (codes "jcmd GC.class_histogram")
      (codes "failed to execute jcmd GC.class_histogram: ") ran
      (λ output. rows_or_error (histogram_rows (lines output.stdout) []))

abbrev pub dump_of : Text → Text → Option (List ThreadInfo) → Option (Result ThreadDump)
dump_of stamp raw none = none
dump_of stamp raw (some threads) =
    some (done (record { captured_at = stamp; raw = raw; threads = threads }))

abbrev pub dump_answer : Text → Result Output → Option (Result ThreadDump)
dump_answer stamp (failed err) = some (failed err)
dump_answer stamp (done output) = dump_of stamp output.stdout (parse_thread_dump output.stdout)

-- `none` is a panic of the parser; `stamp` is the local time.
unfoldable pub query_thread_dump : Text → Result Output → Option (Result ThreadDump)
unfolding on_success
query_thread_dump stamp ran = dump_answer stamp (
    on_success (codes "jcmd Thread.print") (codes "failed to execute jcmd Thread.print: ") ran
      (λ output. done output))
