-- ===== src/Benchmark/Screen.antt =====
-- crates/tui/src/benchmark.rs: the texts of the benchmark's screen, without their colours.
use oprofiler.Base.{
  List, ◌++◌, if◌then◌else◌, Bool, ◌||◌, [], ◌∷◌, true, false, none, some, Option, map, is_empty,
}
use oprofiler.Base.Text.{Text, codes}
use oprofiler.Benchmark.{BenchmarkPhase, idle, profiling, idle_after, BenchmarkResult, Bench}
use oprofiler.Model.Floats.{Host}

unfoldable pub phase_label : BenchmarkPhase → Text
phase_label idle = codes "Idle (baseline)"
phase_label profiling = codes "Profiling"
phase_label idle_after = codes "Idle (after)"

-- The colours that tell the phases apart.
pub data Indicator : Type 0 where
  green blue dark_gray : Indicator

unfoldable pub same_phase : BenchmarkPhase → BenchmarkPhase → Bool
same_phase idle idle = true
same_phase profiling profiling = true
same_phase idle_after idle_after = true
same_phase _ _ = false

unfoldable pub any_of_phase : {F : Type 0} → BenchmarkPhase → List (BenchmarkResult F) → Bool
unfolding same_phase
any_of_phase phase [] = false
any_of_phase phase (r ∷ rest) = same_phase r.phase phase || any_of_phase phase rest

-- The style of a phase's line.
unfoldable pub indicator : {F : Type 0} → Bench F → BenchmarkPhase → Indicator
unfolding any_of_phase
indicator b phase =
    if same_phase phase b.current_phase
    then green
    else if any_of_phase phase b.results
    then blue
    else dark_gray

module _ {F : Type 0} (host : Host F) where
  unfoldable pub result_line : BenchmarkResult F → Text
  unfolding phase_label
  result_line r =
      codes "  "
      ++ (phase_label r.phase
          ++ (codes ": "
              ++ (host.fixed 2 r.elapsed_ms
                  ++ (codes " ms (" ++ (host.fixed 2 r.ns_per_call ++ codes " ns/call)")))))

  abbrev compared : Text → F → F → Text → Text
  compared label per_call ratio what =
      label ++ (host.fixed 2 per_call ++ (codes " ns/call (" ++ (host.fixed 1 ratio ++ what)))

  -- The residual is a warning above one and a half times the baseline.
  unfoldable pub residual_lines : BenchmarkResult F → List (BenchmarkResult F) → List Text
  residual_lines baseline [] = []
  residual_lines baseline (third ∷ rest) =
      let ratio = host.div third.ns_per_call baseline.ns_per_call in
      compared (codes "  Residual (Idle after): ") (host.sub third.ns_per_call baseline.ns_per_call)
        ratio (codes "x baseline)")
      ∷ (if host.lt (host.div (host.of_nat 3) (host.of_nat 2)) ratio
          then codes "  WARNING: Residual overhead detected!"
          else codes "  OK: No significant residual overhead")
      ∷ []

  unfoldable pub summary_lines : List (BenchmarkResult F) → List Text
  unfolding residual_lines
  summary_lines (first ∷ second ∷ rest) =
      []
      ∷ codes "--- Summary ---"
      ∷ (codes "  Baseline:              " ++ (host.fixed 2 first.ns_per_call ++ codes " ns/call"))
      ∷ compared (codes "  Profiling overhead:    ") (host.sub second.ns_per_call first.ns_per_call)
          (host.div second.ns_per_call first.ns_per_call) (codes "x slower)")
      ∷ residual_lines first rest
  summary_lines _ = []

  unfoldable pub results_lines : List (BenchmarkResult F) → List Text
  unfolding result_line summary_lines
  results_lines results =
      if is_empty results
      then []
      else codes "--- Results ---" ∷ (map result_line results ++ (summary_lines results ++ [] ∷ []))

  abbrev error_lines : Option Text → List Text
  error_lines none = []
  error_lines (some err) = err ∷ []

  -- `address` is the agent's address as it is printed.
  unfoldable pub screen_lines : Text → Bench F → List Text
  unfolding results_lines
  screen_lines address b =
      (codes "=== OpenProfiler Overhead Benchmark ==="
        ∷ []
        ∷ codes "Target: 100000000 calls per phase"
        ∷ (codes "Agent: " ++ address)
        ∷ []
        ∷ codes "Phase 1: Idle (baseline)"
        ∷ codes "Phase 2: Profiling"
        ∷ codes "Phase 3: Idle (after profiling)"
        ∷ []
        ∷ [])
      ++ (results_lines b.results
          ++ (b.message
              ∷ (error_lines b.error_msg
                  ++ [] ∷ codes "Controls: Enter=run phase, R=reset, Q=quit" ∷ [])))

  -- What is printed when the benchmark has ended.
  unfoldable pub closing_lines : Bench F → List Text
  unfolding result_line
  closing_lines b = [] ∷ codes "=== Benchmark Results ===" ∷ map result_line b.results
