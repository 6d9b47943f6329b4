-- ===== src/Render/Telemetry.antt =====
-- crates/tui/src/render.rs: the telemetry views, one line with a value and a bar for each measure.
use oprofiler.Base.{
  ℕ, zero, suc, ◌-◌, ◌/◌, List, [], ◌∷◌, ◌++◌, Option, none, some, take, map, length, get_elem?,
  filter_map,
}
use oprofiler.Base.Options.{◌>>=◌}
use oprofiler.Base.Text.{Text, codes}
use oprofiler.Model.Floats.{Host}
use oprofiler.Model.Rows.{TelemetrySample}
use oprofiler.Model.Views.{
  label, ViewId, tele_memory, tele_gc, tele_classes, tele_threads, tele_cpu_load,
}
use oprofiler.App.State.{App}
use oprofiler.Render.Texts.{spark_char, Shown, shows_empty, shows_lines}
use oprofiler.Render.Threads.{places}

-- A measure of the samples.
abbrev pub Measure : Type 0 → Type 0
Measure F = Text × (TelemetrySample F → F)

unfoldable pub spaces_of : ℕ → Text
spaces_of zero = []
spaces_of (suc n) = 32 ∷ spaces_of n

-- `{:>n}`: on the right of `n` places.
unfoldable pub right_aligned : ℕ → Text → Text
unfolding spaces_of
right_aligned n t = spaces_of (n - length t) ++ t

abbrev newest : {A : Type 0} → List A → Option A
newest [] = none
newest (x ∷ []) = some x
newest (x ∷ y ∷ rest) = newest (y ∷ rest)

module _ {F : Type 0} (host : Host F) where
  unfoldable pub measures_of : ViewId → List (Measure F)
  measures_of tele_memory =
      (codes "Heap Used", λ s. s.heap_used_mb)
      ∷ (codes "Heap Committed", λ s. s.heap_committed_mb)
      ∷ []
  measures_of tele_gc =
      (codes "GC Count", λ s. s.gc_count) ∷ (codes "GC Time", λ s. s.gc_time_ms) ∷ []
  measures_of tele_classes = (codes "Classes", λ s. s.class_count) ∷ []
  measures_of tele_threads =
      (codes "Threads", λ s. s.thread_count) ∷ (codes "Handles", λ s. s.handle_count) ∷ []
  measures_of tele_cpu_load = (codes "CPU %", λ s. s.cpu_percent) ∷ []
  measures_of _ =
      (codes "Memory MB", λ s. host.f_max s.heap_used_mb s.process_mb)
      ∷ (codes "Heap Used", λ s. s.heap_used_mb)
      ∷ (codes "CPU %", λ s. s.cpu_percent)
      ∷ (codes "Threads", λ s. s.thread_count)
      ∷ (codes "GC Count", λ s. s.gc_count)
      ∷ []

  -- `fold(0.0, f64::max)`.
  unfoldable pub fold_max : (TelemetrySample F → F) → List (TelemetrySample F) → F → F
  fold_max extract [] most = most
  fold_max extract (s ∷ rest) most = fold_max extract rest (host.f_max most (extract s))

  -- A bar of at most `width` characters over the samples.
  unfoldable pub measure_bar : ℕ → (TelemetrySample F → F) → List (TelemetrySample F) → Text
  unfolding fold_max
  measure_bar width extract samples =
      let most =
        host.f_max (fold_max extract samples (host.of_nat 0))
          (host.div (host.of_nat 1) (host.of_nat 100)) in
      let step =
        host.f_max (host.div (host.of_nat (length samples)) (host.of_nat width)) (host.of_nat 1) in
      filter_map
        (λ i. get_elem? samples (host.to_u64 (host.mul (host.of_nat i) step)) >>= λ s.
          some (spark_char host (host.div (extract s) most)))
        (places width 0)

  abbrev measure_line : ℕ → List (TelemetrySample F) → TelemetrySample F → Measure F → Text
  measure_line width samples last (name, extract) =
      b' '
      ∷ (right_aligned 14 name
          ++ (b' '
              ∷ (right_aligned 8 (host.fixed 1 (extract last))
                  ++ (b' ' ∷ measure_bar (width - 24) extract samples))))

  abbrev telemetry_header : App F → Shown
  telemetry_header app =
      shows_lines []
        ((codes " Telemetry: " ++ (label app.selected_view ++ codes "  [r=Refresh]")) ∷ [])

  -- The header and the lines; `width` and `height` are those of the area below the header. A line
  -- takes three rows of it.
  unfoldable pub render_telemetry : ℕ → ℕ → App F → List Shown
  unfolding measures_of measure_bar right_aligned
  render_telemetry width height app = elim app.selected_pid [
    | none ↦
        shows_empty (codes "No JVM selected") (codes "Return to Start Center and select a JVM") ∷ []
    | some pid ↦ elim (newest app.telemetry_state.samples) [
      | none ↦
          telemetry_header app
          ∷ shows_empty (codes "No telemetry data yet") (codes "Press 'r' to refresh")
          ∷ []
      | some last ↦
          telemetry_header app
          ∷ shows_lines [] (
              map (measure_line width app.telemetry_state.samples last)
                (take (height / 3) (measures_of app.selected_view)))
          ∷ []
    ]
  ]
