-- ===== src/Render/Cpu.antt =====
-- crates/tui/src/render.rs: the CPU views that list lines: outliers, complexity and call traces.
use oprofiler.Base.{
  List, [], ◌∷◌, ◌++◌, Option, some, if◌then◌else◌, ltb, take, keep, is_empty, map, reverse, Bool,
}
use oprofiler.Base.Options.{◌>>=◌}
use oprofiler.Base.Text.{Text, codes, to_decimal}
use oprofiler.Model.Floats.{Host}
use oprofiler.Model.Rows.{CpuMethodRow}
use oprofiler.Model.Threads.{StackSample, StackTraceElement, full_name, location}
use oprofiler.App.State.{App}
use oprofiler.App.Rows.{filtered_cpu_rows}
use oprofiler.Render.Texts.{truncate_str, Shown, shows_empty, shows_lines}

unfoldable pub texts_of {ℓ} : {A : Type ℓ} → (A → Option Text) → List A → Option (List Text)
texts_of text [] = some []
texts_of text (r ∷ rest) = do line ← text r; lines ← texts_of text rest; some (line ∷ lines)

abbrev no_cpu_data : Shown
no_cpu_data = shows_empty (codes "No CPU data recorded") (codes "Press 's' to start recording")

abbrev pub or_line : Text → List Text → List Text
or_line text [] = text ∷ []
or_line text (line ∷ rest) = line ∷ rest

module _ {F : Type 0} (host : Host F) where
  -- A row with more than five percent, in single precision.
  abbrev pub is_outlier : CpuMethodRow F → Bool
  is_outlier r = host.lt (host.as_f32 (host.div (host.of_nat 5) (host.of_nat 100))) r.percent

  unfoldable pub outlier_line : CpuMethodRow F → Option Text
  outlier_line row = do
    method ← truncate_str row.method 80
    some (
        codes "slow "
        ++ (host.fixed 1 (host.as_f32 (host.mul row.percent (host.of_nat 100)))
            ++ (codes "% " ++ method)))

  -- `none` is a panic of a shortened name.
  unfoldable pub render_cpu_outliers : App F → Option Shown
  unfolding outlier_line texts_of
  render_cpu_outliers app =
      if is_empty app.cpu.methods
      then some no_cpu_data
      else texts_of outlier_line (take 60 (keep is_outlier (filtered_cpu_rows host app)))
        >>= λ lines. some (
            shows_lines (codes " Outlier Detection ")
              (or_line (codes "No outliers detected") lines))

  unfoldable pub complexity_line : CpuMethodRow F → Option Text
  complexity_line row = do
    method ← truncate_str row.method 70
    some (
        method
        ++ (codes "  "
            ++ ((if ltb 10 row.total_samples then codes "O(n) suspected" else codes "stable")
                ++ (codes " (" ++ (to_decimal row.total_samples ++ codes " samples)")))))

  unfoldable pub render_cpu_complexity : App F → Option Shown
  unfolding complexity_line texts_of
  render_cpu_complexity app =
      if is_empty app.cpu.methods
      then some no_cpu_data
      else texts_of complexity_line (take 40 (filtered_cpu_rows host app)) >>= λ lines.
          some (shows_lines (codes " Complexity ") (codes "Complexity Analysis" ∷ [] ∷ lines))

  unfoldable pub frame_line : StackTraceElement → Text
  frame_line ste = codes "    at " ++ (full_name ste ++ (b' ' ∷ location ste))

  unfoldable pub trace_lines : List (StackSample F) → List Text
  unfolding frame_line
  trace_lines [] = []
  trace_lines (sample ∷ rest) =
      (sample.captured_at ++ (b' ' ∷ (sample.thread ++ (b' ' ∷ sample.state))))
      ∷ (map frame_line (take 8 sample.stack_trace) ++ ([] ∷ trace_lines rest))

  -- The newest forty samples, the newest first.
  unfoldable pub render_cpu_tracer : App F → Shown
  unfolding trace_lines
  render_cpu_tracer app =
      if is_empty app.cpu.samples
      then shows_empty (codes "No call trace samples recorded")
          (codes "Press 's' to start recording")
      else shows_lines (codes " Call Tracer ") (trace_lines (take 40 (reverse app.cpu.samples)))
