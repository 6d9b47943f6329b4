-- ===== src/App/Invariant/Answered.antt =====
-- app.rs: when every query has been answered, polling leaves nothing in flight.
use oprofiler.Base.{
  ◌+◌, ◌++◌, if◌then◌else◌, ◌≡◌, ◌≢◌, ◌∙◌, ap, List, [], ◌∷◌, none, All, refl, arith, done, failed,
  Option-cases, inl, inr, false, true, ℕ, Bool,
}
use oprofiler.Base.Text.{Text}
use oprofiler.Model.Views.{same_view, live_allocation_hot_spots}
use oprofiler.Model.Floats.{Host}
use oprofiler.Model.Threads.{ThreadInfo}
use oprofiler.App.State.{
  App, Now, QueryResult, QueryHandle, jvms, jvms_error, telemetry, live_memory_rows, cpu_sample,
  cpu_instrumentation, thread_dump, heap_snapshot, cpu_recording, gc, poll, push_log,
}
use oprofiler.App.Session.{
  ensure_default_jvm_selected, set_agent_port, spawn_fetch_cpu_instrumentation,
}
use oprofiler.App.Results.{
  apply_result, apply_results, poll_queries, still_pending, sample_threads, apply_jvms,
  apply_cpu_sample, apply_cpu_recording, apply_telemetry, apply_live_memory, apply_instrumentation,
  push_thread_dump, update_thread_history, rebuild_cpu_rows, is_sampled, sample_of,
}
use oprofiler.App.Invariant.{IsValid}
use oprofiler.App.Invariant.Polled.{poll_queries-IsValid, taken, emptied}
use oprofiler.Model.Rows.{JvmTarget}
use oprofiler.App.Flight.{starts, stops}

module _ {F : Type 0} (host : Host F) (now : Now) where
  either_pending :
      (b : Bool) (x y : App F)
      → x.pending_queries ≡ y.pending_queries
      → (if b then x else y).pending_queries ≡ y.pending_queries
  either_pending true x y same = same
  either_pending false x y same = refl

  sample_threads-pending :
      (captured_at thread_status : Text) (threads : List ThreadInfo) (added : ℕ) (app : App F)
      → (sample_threads host now captured_at thread_status threads added app).0.pending_queries
        ≡ app.pending_queries
  unfolding sample_threads
  sample_threads-pending captured_at thread_status [] added app = refl
  sample_threads-pending captured_at thread_status (thread ∷ rest) added app =
      let wanted = is_sampled thread_status thread in
      let sampled : App F = record app {
        cpu = record app.cpu {
          samples = app.cpu.samples ++ sample_of host now captured_at app thread ∷ [];
        };
      } in
      sample_threads-pending captured_at thread_status rest (if wanted then added + 1 else added)
        (if wanted then sampled else app)
      ∙ either_pending wanted sampled app refl

  apply_cpu_recording-pending :
      (success : Bool) (action message : Text) (port : ℕ) (app : App F)
      → (apply_cpu_recording host now success action message port app).pending_queries
        ≡ app.pending_queries
  unfolding apply_cpu_recording set_agent_port spawn_fetch_cpu_instrumentation push_log
  apply_cpu_recording-pending success action message port app = ground arith

  apply_jvms-pending :
      (targets : List JvmTarget) (app : App F)
      → (apply_jvms host now targets app).pending_queries ≡ app.pending_queries
  unfolding apply_jvms ensure_default_jvm_selected push_log
  apply_jvms-pending targets app = ground arith

  apply_result-pending :
      (r : QueryResult F) (app : App F)
      → (apply_result host now r app).pending_queries ≡ app.pending_queries
  unfolding apply_result push_log apply_telemetry apply_live_memory apply_instrumentation
      push_thread_dump update_thread_history apply_cpu_sample rebuild_cpu_rows
  apply_result-pending (jvms targets) app = apply_jvms-pending targets app
  apply_result-pending (jvms_error message) app = refl
  apply_result-pending (telemetry process heap gc_counts elapsed cpu_seconds) app = refl
  apply_result-pending (live_memory_rows (done snapshot)) app = refl
  apply_result-pending (live_memory_rows (failed message)) app = refl
  apply_result-pending (cpu_sample (done dump) thread_status) app =
      sample_threads-pending dump.captured_at thread_status dump.threads 0 app
  apply_result-pending (cpu_sample (failed message) thread_status) app = refl
  apply_result-pending (cpu_instrumentation (done (rows, method_edges))) app = refl
  apply_result-pending (cpu_instrumentation (failed message)) app = refl
  apply_result-pending (thread_dump (done dump)) app = refl
  apply_result-pending (thread_dump (failed message)) app = refl
  apply_result-pending (heap_snapshot success message path pid) app = refl
  apply_result-pending (cpu_recording success action message pid port) app =
      apply_cpu_recording-pending success action message port app
  apply_result-pending (gc success message pid) app = refl

  apply_results-pending :
      (rs : List (QueryResult F)) (app : App F)
      → (apply_results host now rs app).pending_queries ≡ app.pending_queries
  unfolding apply_results
  apply_results-pending [] app = refl
  apply_results-pending (r ∷ rs) app =
      apply_results-pending rs (apply_result host now r app) ∙ apply_result-pending r app

  still_pending-answered :
      (hs : List (QueryHandle F)) → All (λ h. h.rx ≢ none) hs → still_pending hs ≡ []
  unfolding still_pending poll
  still_pending-answered [] answered = refl
  still_pending-answered (h ∷ hs) (here, answered) = elim (Option-cases h.rx) [
    | inl e ↦ absurd (here e)
    | inr (r, e) ↦ rw e (still_pending-answered hs answered)
  ]

  -- When all pending queries have been answered and another view than that of the allocation hot spots
  -- is shown, one poll leaves none of the queries, and neither a start nor a stop of a recording is said
  -- to be on its way any more: the user can ask for another. (In the view of the allocation hot spots a
  -- poll lists the visible rows, which ends only if no rows run in a circle.)
  pub poll_queries-settles :
      (app : App F)
      → IsValid app
      → All (λ h. h.rx ≢ none) app.pending_queries
      → same_view app.selected_view live_allocation_hot_spots ≡ false
      → ((poll_queries host now app).pending_queries ≡ [])
        × (((poll_queries host now app).cpu_recording_start_pending ≡ false)
            × ((poll_queries host now app).cpu_recording_stop_pending ≡ false))
  unfolding poll_queries
  poll_queries-settles app valid answered other =
      let polled = poll_queries host now app in
      let empty : polled.pending_queries ≡ [] =
        apply_results-pending (taken app) (emptied app)
        ∙ still_pending-answered app.pending_queries answered in
      let v = poll_queries-IsValid host now app valid in
      (
        empty,
        (
          ground (arith, v.start_flag, ap starts empty),
          ground (arith, v.stop_flag, ap stops empty),
        ),
      )
