-- ===== src/Tests/Tables.antt =====
-- The agent's probes, and the texts of the tables.
use oprofiler.Base.{
  ◌+◌, ◌%◌, ◌^◌, if◌then◌else◌, ◌/◌, ◌++◌, ◌∷◌, ltb, pos, ◌≡◌, ◌≤◌, ◌<◌, ◌-◌, refl, [], some,
  length, get_elem?, true, false, arith, min, All,
}
use oprofiler.Base.Text.{to_decimal, codes, parse_radix}
use oprofiler.Format.{format_count, truncate_middle}
use oprofiler.Format.Grouping.{without_commas, three_digits, parse-format_count}
use oprofiler.Format.Shortening.{length-truncate_middle}
use oprofiler.Agent.{AgentState, NativeJdbcStats, record_jdbc_probe_enter, record_jdbc_probe_exit}
use oprofiler.Agent.Probes.{IsFlat, enter_exit, probe_exit-IsFlat}

abbrev fresh_stats : NativeJdbcStats
fresh_stats = record { self_duration_nano = 70; total_duration_nano = 70; invocations = 1 }

abbrev recorder : AgentState
recorder = record {
  recording = true;
  snapshot_in_progress = false;
  total_samples = 0;
  sampling_interval_ms = 10;
  hotspots = [];
  jdbc_stats = fresh_stats ∷ fresh_stats ∷ [];
  method_meta = [];
  allocations = [];
}

enter_exit_example :
    ((record_jdbc_probe_exit
        (pos 1)
        (pos 350)
        recorder
        (record_jdbc_probe_enter (pos 1) (pos 100) recorder [])).1
      ≡ [])
    × (get_elem?
          (record_jdbc_probe_exit
            (pos 1)
            (pos 350)
            recorder
            (record_jdbc_probe_enter (pos 1) (pos 100) recorder [])).0.jdbc_stats
          1
        ≡ some (record {
          self_duration_nano = (70 + (350 - 100)) % 2 ^ 64;
          total_duration_nano = (70 + (350 - 100)) % 2 ^ 64;
          invocations = (1 + 1) % 2 ^ 64;
        }))
enter_exit_example = enter_exit 1 100 350 recorder [] fresh_stats refl refl

probe_exit-IsFlat_example :
    All IsFlat
      (record_jdbc_probe_exit (pos 0) (pos 90) recorder ((pos 0, pos 20) ∷ [])).0.jdbc_stats
probe_exit-IsFlat_example =
    probe_exit-IsFlat (pos 0) (pos 90) recorder ((pos 0, pos 20) ∷ []) (refl, (refl, tt))

parse-format_count_example :
    (format_count 1234567 ≡ (
      if ltb 1234567 1000
      then to_decimal 1234567
      else format_count (1234567 / 1000) ++ b',' ∷ three_digits 1234567))
    × (parse_radix 10 18446744073709551615 (without_commas (format_count 1234567)) ≡ some 1234567)
parse-format_count_example = parse-format_count 18446744073709551615 1234567 (omega arith)

length-truncate_middle_example :
    (5 ≤ 6
      → length (truncate_middle (codes "openprofiler") 6) ≡ min 6 (length (codes "openprofiler")))
    × (6 < 5
        → 6 < length (codes "openprofiler")
        → 6 < length (truncate_middle (codes "openprofiler") 6))
length-truncate_middle_example = length-truncate_middle (codes "openprofiler") 6
