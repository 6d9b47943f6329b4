-- ===== src/Agent/Probes.antt =====
-- crates/jvmti-agent/src/lib.rs: the JDBC probes. What entering and leaving does to the counts.
use oprofiler.Base.{
  ℕ, zero, suc, ◌+◌, ◌%◌, ◌^◌, ◌-◌, ◌<◌, ◌≡◌, true, ℤ, pos, List, [], ◌∷◌, some, length, get_elem?,
  arith, All, pos_part,
}
use oprofiler.Agent.{
  NativeJdbcStats, AgentState, ProbeStack, add_invocation, update_stats, elapsed_between,
  leave_probe, record_jdbc_probe_enter, record_jdbc_probe_exit, is_valid_jdbc_probe_id,
}

-- The probe's time of its own is its whole time.
abbrev pub IsFlat : NativeJdbcStats → Type 0
IsFlat st = st.self_duration_nano ≡ st.total_duration_nano

update_stats-IsFlat :
    (i duration : ℕ) (stats : List NativeJdbcStats)
    → All IsFlat stats
    → All IsFlat (update_stats i duration stats)
unfolding update_stats add_invocation
update_stats-IsFlat i duration [] a = tt
update_stats-IsFlat zero duration (st ∷ rest) (flat, others) = (ground arith, others)
update_stats-IsFlat (suc i) duration (st ∷ rest) (flat, others) =
    (flat, update_stats-IsFlat i duration rest others)

get_elem?-update_stats :
    (i duration : ℕ) (stats : List NativeJdbcStats) (st : NativeJdbcStats)
    → get_elem? stats i ≡ some st
    → get_elem? (update_stats i duration stats) i ≡ some (add_invocation duration st)
unfolding update_stats
get_elem?-update_stats i duration [] st e = absurd (ground arith)
get_elem?-update_stats zero duration (s ∷ rest) st e = ground arith
get_elem?-update_stats (suc i) duration (s ∷ rest) st e =
    get_elem?-update_stats i duration rest st e

get_elem?-lt :
    (stats : List NativeJdbcStats) (i : ℕ) (st : NativeJdbcStats)
    → get_elem? stats i ≡ some st
    → i < length stats
get_elem?-lt [] i st e = absurd (ground arith)
get_elem?-lt (s ∷ rest) zero st e = omega arith
get_elem?-lt (s ∷ rest) (suc i) st e = omega (arith, get_elem?-lt rest i st e)

-- If the self time of every probe equals its total time, then leaving any probe with any stack keeps
-- it so.
pub probe_exit-IsFlat :
    (probe_id now : ℤ) (s : AgentState) (stack : ProbeStack)
    → All IsFlat s.jdbc_stats
    → All IsFlat (record_jdbc_probe_exit probe_id now s stack).0.jdbc_stats
unfolding record_jdbc_probe_exit leave_probe
probe_exit-IsFlat probe_id now s [] a = ground arith
probe_exit-IsFlat probe_id now s ((actual, start) ∷ rest) a =
    ground
      (arith, update_stats-IsFlat (pos_part probe_id) (elapsed_between now start) s.jdbc_stats a)

-- While recording, entering a probe that exists and leaving it later gives back the thread's stack of
-- open probes, and adds one to the probe's invocations and the time between to both of its times,
-- modulo 2^64.
pub enter_exit :
    (i : ℕ) (began ended : ℕ) (s : AgentState) (stack : ProbeStack) (st : NativeJdbcStats)
    → s.recording ≡ true
    → get_elem? s.jdbc_stats i ≡ some st
    → let entered = record_jdbc_probe_enter (pos i) (pos began) s stack in
      let left = record_jdbc_probe_exit (pos i) (pos ended) s entered in
      (left.1 ≡ stack)
      × (get_elem? left.0.jdbc_stats i
          ≡ some (record {
            self_duration_nano = (st.self_duration_nano + (ended - began)) % 2 ^ 64;
            total_duration_nano = (st.total_duration_nano + (ended - began)) % 2 ^ 64;
            invocations = (st.invocations + 1) % 2 ^ 64;
          }))
unfolding record_jdbc_probe_enter record_jdbc_probe_exit leave_probe is_valid_jdbc_probe_id
    elapsed_between add_invocation
enter_exit i began ended s stack st on e = ground (
  arith,
  get_elem?-update_stats i (ended - began) s.jdbc_stats st e,
  get_elem?-lt s.jdbc_stats i st e,
)
