-- ===== src/Once.antt =====
-- crates/tui/src/lib.rs: the modes that record for a while, print the hot spots once and end.
pub mod Split
use oprofiler.Base.{
  List, [], ◌∷◌, true, false, none, some, ◌>>=◌, ℕ, ◌^◌, Option, if◌then◌else◌, Bool, ◌+◌, ◌-◌,
  any_of, ltb, keep, ◌%◌, ◌++◌, map, Result, not, max, take, done,
}
use oprofiler.Base.Options.{unwrap_or}
use oprofiler.Base.Text.{Text, parse_radix, codes, text_eq}
use oprofiler.Base.Sort.{sort_by}
use oprofiler.Protocol.Messages.{HotSpot, CpuData}
use oprofiler.Model.Floats.{Host}
use oprofiler.Event.Terminal.{arg_value}
use oprofiler.Protocol.Client.{
  Codec, Connection, start_cpu_recording, client_get_cpu_data, stop_cpu_recording,
}
use oprofiler.Format.{format_duration_nano_f, format_count}

abbrev number_arg : ℕ → List Text → Text → ℕ → ℕ
number_arg top args name d = elim (arg_value args name) [
  | none ↦ d
  | some value ↦ unwrap_or (parse_radix 10 top value) d
]

-- The options of both modes.
pub record OnceOptions : Type 0 where
  pub port : ℕ
  pub record_ms : ℕ
  pub limit : ℕ

unfoldable pub once_options : List Text → OnceOptions
once_options args = record {
  port = number_arg (2 ^ 16 - 1) args (codes "--port") 8849;
  record_ms = number_arg (2 ^ 64 - 1) args (codes "--record-ms") 1500;
  limit = number_arg (2 ^ 64 - 1) args (codes "--limit") 20;
}

-- What the program runs as.
pub data Mode : Type 0 where
  database_once hotspots_once : OnceOptions → Mode
  benchmark : ℕ → Mode
  interactive : Option ℕ → Mode

abbrev port_of : List Text → Option ℕ
port_of args = elim (arg_value args (codes "--port")) [
  | none ↦ none
  | some value ↦ parse_radix 10 (2 ^ 16 - 1) value
]

unfoldable pub mode_of : List Text → Mode
unfolding once_options
mode_of args =
    if any_of (text_eq (codes "--database-once")) args
    then database_once (once_options args)
    else if any_of (text_eq (codes "--hotspots-once")) args
    then hotspots_once (once_options args)
    else if any_of (text_eq (codes "--benchmark")) args
    then benchmark (unwrap_or (port_of args) 8849)
    else interactive (port_of args)

module _ {F : Type 0} where
  abbrev pub is_sql : HotSpot F → Bool
  is_sql row = text_eq row.class_name (codes "SQL")

  abbrev pub longer : HotSpot F → HotSpot F → Bool
  longer a b = ltb b.self_duration_nano a.self_duration_nano

  -- The rows of either listing, the longest first.
  unfoldable pub database_rows : List (HotSpot F) → List (HotSpot F)
  database_rows hot_spots = sort_by longer (keep is_sql hot_spots)

  unfoldable pub hotspot_rows : List (HotSpot F) → List (HotSpot F)
  hotspot_rows hot_spots = sort_by longer (keep (λ row. not (is_sql row)) hot_spots)

  -- `sum::<u64>()`, which wraps around in the release build.
  unfoldable pub total_self_of : List (HotSpot F) → ℕ
  total_self_of [] = 0
  total_self_of (row ∷ rest) = (row.self_duration_nano + total_self_of rest) % 2 ^ 64

module _ {F : Type 0} (host : Host F) (codec : Codec F) where
  abbrev average_text : HotSpot F → Text
  average_text row = format_duration_nano_f host (
      if ltb 0 row.invocations
      then host.div (host.of_nat row.self_duration_nano) (host.of_nat row.invocations)
      else host.of_nat 0)

  abbrev measures_text : ℕ → HotSpot F → Text
  measures_text total_self row =
      host.fixed 1 (
        host.div (host.mul (host.of_nat row.self_duration_nano) (host.of_nat 100))
          (host.of_nat total_self))
      ++ (codes "% - "
          ++ (format_duration_nano_f host (host.of_nat row.self_duration_nano)
              ++ (codes " - " ++ format_count row.invocations)))

  unfoldable pub hotspot_line : ℕ → HotSpot F → Text
  unfolding format_duration_nano_f
  hotspot_line total_self row =
      measures_text total_self row
      ++ (codes " hot spot inv. "
          ++ (row.class_name
              ++ (codes "."
                  ++ (row.method_name
                      ++ (row.method_descriptor ++ (codes " avg " ++ average_text row))))))

  unfoldable pub database_line : ℕ → HotSpot F → Text
  unfolding format_duration_nano_f
  database_line total_self row =
      measures_text total_self row
      ++ (codes " hot spot evt. " ++ (row.method_name ++ (codes " avg " ++ average_text row)))

  abbrev printed_rows : (ℕ → HotSpot F → Text) → ℕ → List (HotSpot F) → List Text
  printed_rows line limit rows = map (line (max (total_self_of rows) 1)) (take limit rows)

  -- The recording of both modes: the commands one after the other on one connection.
  unfoldable pub record_once : Result Connection → Result (CpuData F)
  record_once connected = do
    client ← connected
    let (started, client1) = start_cpu_recording codec client
    _ ← started
    let (answer, client2) = client_get_cpu_data codec client1
    cpu_data ← answer
    _ ← (stop_cpu_recording codec client2).0
    done cpu_data

  -- The lines that are printed.
  unfoldable pub print_hotspots_once : Result Connection → List Text → Result (List Text)
  unfolding record_once hotspot_rows hotspot_line once_options total_self_of
  print_hotspots_once connected args = do
    cpu_data ← record_once connected
    done (printed_rows hotspot_line (once_options args).limit (hotspot_rows cpu_data.hot_spots))

  unfoldable pub print_database_once : Result Connection → List Text → Result (List Text)
  unfolding record_once database_rows database_line once_options total_self_of
  print_database_once connected args = do
    cpu_data ← record_once connected
    done (printed_rows database_line (once_options args).limit (database_rows cpu_data.hot_spots))
