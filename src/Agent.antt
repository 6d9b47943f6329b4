-- ===== src/Agent.antt =====
-- crates/jvmti-agent/src/lib.rs: the recorder inside the profiled JVM. Its static variables are one
-- record; each exported function takes it and returns it. What JVMTI and the clocks answer is an
-- argument, and the calls of the functions are taken to be atomic, as their locks make them.
pub mod Probes
pub mod Allocations
pub mod Snapshot
use oprofiler.Base.{
  ℕ, zero, suc, ◌+◌, ◌-◌, ◌*◌, ◌/◌, ◌%◌, ◌^◌, Bool, true, false, not, ◌&&◌, ◌||◌, ℤ, pos, negsuc,
  List, [], ◌∷◌, ◌++◌, Option, none, some, length, get_elem?, set, take, is_empty, map, min, max,
  ltb, leb, ◌==◌, if◌then◌else◌, is_nonneg, pos_part, saturating_add,
}
use oprofiler.Base.Text.{
  Text, codes, text_eq, starts_with, ends_with, replace_char, to_decimal, join,
}
use oprofiler.Base.Maps.{lookup, insert}
use oprofiler.Base.Sort.{sort_by}

pub record HotSpotEntry : Type 0 where
  pub class_name : Text
  pub method_name : Text
  pub method_descriptor : Text
  pub self_samples : ℕ
  pub total_samples : ℕ

pub record NativeJdbcStats : Type 0 where
  pub self_duration_nano : ℕ
  pub total_duration_nano : ℕ
  pub invocations : ℕ

pub record NativeMethodMeta : Type 0 where
  pub class_name : Text
  pub method_name : Text
  pub method_descriptor : Text

pub record NativeAllocationStats : Type 0 where
  pub path : List ℕ
  pub method : NativeMethodMeta
  pub allocated_type : Text
  pub allocated_size : ℕ
  pub instance_count : ℕ

-- The static variables. The keys of the maps are kept in the order in which they came in.
pub record AgentState : Type 0 where
  pub recording : Bool
  pub snapshot_in_progress : Bool
  pub total_samples : ℕ
  pub sampling_interval_ms : ℕ
  pub hotspots : List (Text × HotSpotEntry)
  pub jdbc_stats : List NativeJdbcStats
  pub method_meta : List (ℕ × NativeMethodMeta)
  pub allocations : List (Text × NativeAllocationStats)

-- Addition on an `AtomicU64` wraps around.
abbrev pub wrapping_add64 : ℕ → ℕ → ℕ
wrapping_add64 a b = (a + b) % 2 ^ 64

abbrev pub no_stats : NativeJdbcStats
no_stats = record { self_duration_nano = 0; total_duration_nano = 0; invocations = 0 }

unfoldable pub reset_native_jdbc_hotspots : AgentState → AgentState
reset_native_jdbc_hotspots s = record s { jdbc_stats = map (λ _. no_stats) s.jdbc_stats }

-- Starting forgets all that was recorded, but not the probes that threads have entered.
unfoldable pub start_recording : AgentState → AgentState
unfolding reset_native_jdbc_hotspots
start_recording s =
    reset_native_jdbc_hotspots
      (record s { recording = true; total_samples = 0; hotspots = []; allocations = [] })

unfoldable pub stop_recording : AgentState → AgentState
stop_recording s = record s { recording = false }

unfoldable pub set_sampling_interval_ms : ℕ → AgentState → AgentState
set_sampling_interval_ms interval s = record s { sampling_interval_ms = interval }

unfoldable pub is_valid_jdbc_probe_id : ℤ → AgentState → Bool
is_valid_jdbc_probe_id probe_id s =
    is_nonneg probe_id && ltb (pos_part probe_id) (length s.jdbc_stats)

-- The probes that one thread has entered and not left, the newest first, with their times.
abbrev pub ProbeStack : Type 0
ProbeStack = List (ℤ × ℤ)

unfoldable pub record_jdbc_probe_enter : ℤ → ℤ → AgentState → ProbeStack → ProbeStack
unfolding is_valid_jdbc_probe_id
record_jdbc_probe_enter probe_id now s stack =
    if not s.recording || not (is_valid_jdbc_probe_id probe_id s)
    then stack
    else (probe_id, now) ∷ stack

-- `now.saturating_sub(start).max(0) as u64`, on i64.
unfoldable pub elapsed_between : ℤ → ℤ → ℕ
elapsed_between (pos a) (pos b) = a - b
elapsed_between (pos a) (negsuc b) = min (a + b + 1) (2 ^ 63 - 1)
elapsed_between (negsuc a) (pos b) = 0
elapsed_between (negsuc a) (negsuc b) = b - a

unfoldable pub add_invocation : ℕ → NativeJdbcStats → NativeJdbcStats
add_invocation duration st = record {
  self_duration_nano = wrapping_add64 st.self_duration_nano duration;
  total_duration_nano = wrapping_add64 st.total_duration_nano duration;
  invocations = wrapping_add64 st.invocations 1;
}

unfoldable pub update_stats : ℕ → ℕ → List NativeJdbcStats → List NativeJdbcStats
unfolding add_invocation
update_stats i duration [] = []
update_stats zero duration (st ∷ rest) = add_invocation duration st ∷ rest
update_stats (suc i) duration (st ∷ rest) = st ∷ update_stats i duration rest

abbrev same_int : ℤ → ℤ → Bool
same_int (pos a) (pos b) = a == b
same_int (negsuc a) (negsuc b) = a == b
same_int _ _ = false

-- The newest entry is taken off whatever its probe; it counts only if it is the probe that is left.
unfoldable pub leave_probe : ℤ → ℤ → AgentState → ProbeStack → AgentState × ProbeStack
unfolding elapsed_between update_stats
leave_probe probe_id now s [] = (s, [])
leave_probe probe_id now s ((actual, start) ∷ rest) =
    if not (same_int actual probe_id) then (s, rest) else (
      record s {
        jdbc_stats = update_stats (pos_part probe_id) (elapsed_between now start) s.jdbc_stats;
      },
      rest,
    )

unfoldable pub record_jdbc_probe_exit : ℤ → ℤ → AgentState → ProbeStack → AgentState × ProbeStack
unfolding is_valid_jdbc_probe_id leave_probe
record_jdbc_probe_exit probe_id now s stack =
    if not s.recording || not (is_valid_jdbc_probe_id probe_id s)
    then (s, stack)
    else leave_probe probe_id now s stack

unfoldable pub jdbc_probe_average_duration_nanos : ℤ → AgentState → ℕ
unfolding is_valid_jdbc_probe_id
jdbc_probe_average_duration_nanos probe_id s =
    if not (is_valid_jdbc_probe_id probe_id s)
    then 0
    else elim (get_elem? s.jdbc_stats (pos_part probe_id)) [
      | none ↦ 0
      | some st ↦ if st.invocations == 0 then 0 else st.self_duration_nano / st.invocations
    ]

-- The probes with invocations, with their ids, as the JSON text lists them.
unfoldable pub jdbc_hotspots_from : ℕ → List NativeJdbcStats → List (ℕ × NativeJdbcStats)
jdbc_hotspots_from id [] = []
jdbc_hotspots_from id (st ∷ rest) =
    if st.invocations == 0
    then jdbc_hotspots_from (id + 1) rest
    else (id, st) ∷ jdbc_hotspots_from (id + 1) rest

abbrev fresh_entry : Text → Text → Text → HotSpotEntry
fresh_entry cn mn md = record {
  class_name = cn;
  method_name = mn;
  method_descriptor = md;
  self_samples = 0;
  total_samples = 0;
}

abbrev entry_or : Option HotSpotEntry → HotSpotEntry → HotSpotEntry
entry_or none d = d
entry_or (some e) d = e

unfoldable pub sample_key : Text → Text → Text → Text
sample_key cn mn md = cn ++ (codes "::" ++ (mn ++ md))

unfoldable pub record_sample : Text → Text → Text → Bool → AgentState → AgentState
unfolding sample_key
record_sample cn mn md is_leaf s =
    let key = sample_key cn mn md in
    let entry = entry_or (lookup text_eq key s.hotspots) (fresh_entry cn mn md) in
    if not s.recording then s else record s {
      total_samples = wrapping_add64 s.total_samples 1;
      hotspots =
          insert text_eq key
            (record entry {
              total_samples = entry.total_samples + 1;
              self_samples = if is_leaf then entry.self_samples + 1 else entry.self_samples;
            })
            s.hotspots;
    }

abbrev values : List (Text × HotSpotEntry) → List HotSpotEntry
values [] = []
values ((k, e) ∷ rest) = e ∷ values rest

-- The entries of `getHotSpotsJson`: by falling self samples, at most 250.
unfoldable pub top_hotspots : AgentState → List HotSpotEntry
top_hotspots s = take 250 (sort_by (λ a b. ltb b.self_samples a.self_samples) (values s.hotspots))
