-- ===== src/App/Invariant.antt =====
-- app.rs: what holds of the application between any two operations.
pub mod Moves
pub mod Actions
pub mod Answered
pub mod Applied
pub mod Polled
pub mod Turn
use oprofiler.Base.{
  ℕ, ◌+◌, ◌≤◌, ◌<◌, ◌≡◌, ◌∷◌, Option, none, some, arith, All, length, as_num,
  length-keep_newest_front,
}
use oprofiler.Base.Text.{Text}
use oprofiler.Model.Floats.{Host}
use oprofiler.Model.Views.{ViewId}
use oprofiler.Model.Rows.{LogLevel}
use oprofiler.App.State.{App, Now, new, push_log, max_thread_dumps, current_category_views}
use oprofiler.App.Flight.{IsHonest, IsQuiet, starts, stops}
use oprofiler.App.Selection.{go_to_view, next_category}

-- The selected dump is the newest of the dumps that are kept.
abbrev pub DumpSelected : Option ℕ → ℕ → Type 0
DumpSelected none n = n ≡ 0
DumpSelected (some i) n = i < n

-- The application is well-formed, where the answers that are taken but not yet applied include
-- `taken_starts` to start requests and `taken_stops` to stop requests.
pub record IsValidDuring {F : Type 0} (taken_starts taken_stops : ℕ) (app : App F) : Type 0 where
  pub category : app.selected_category_idx < 4
  pub item : app.selected_item_idx ≡ 0
  pub few_logs : length app.logs ≤ 100
  pub few_samples : length app.telemetry_state.samples ≤ 240
  pub few_stacks : length app.cpu.samples ≤ 800
  pub few_summaries : length app.threads.history ≤ 240
  pub few_dumps : length app.threads.dumps ≤ max_thread_dumps
  pub dump : DumpSelected app.threads.selected_dump (length app.threads.dumps)
  pub honest : All IsHonest app.pending_queries
  pub start_flag :
      starts app.pending_queries + taken_starts ≡ as_num app.cpu_recording_start_pending
  pub stop_flag : stops app.pending_queries + taken_stops ≡ as_num app.cpu_recording_stop_pending
  pub quiet_jvms : IsQuiet app.jvms_query
  pub quiet_telemetry : IsQuiet app.telemetry_query
  pub quiet_memory : IsQuiet app.memory_query
  pub quiet_thread : IsQuiet app.thread_query

-- The application between two operations.
abbrev pub IsValid : {F : Type 0} → App F → Type 0
IsValid app = IsValidDuring 0 0 app

module _ {F : Type 0} where
  pub new-IsValid : (host : Host F) (now : Now) → IsValid (new host now)
  unfolding new
  new-IsValid host now = ground arith

  pub push_log-IsValid :
      (now : Now) (level : LogLevel) (action message : Text) {s t : ℕ} {app : App F}
      → IsValidDuring s t app
      → IsValidDuring s t (push_log now level action message app)
  unfolding push_log
  push_log-IsValid now level action message {s} {t} {app} v = ground (
    arith,
    length-keep_newest_front 100
        (record { at = now.stamp; level = level; action = action; message = message } ∷ app.logs),
  )
