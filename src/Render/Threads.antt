-- ===== src/Render/Threads.antt =====
-- crates/tui/src/render.rs: the thread views.
pub mod Dumps
use oprofiler.Base.{
  ℕ, zero, suc, ◌+◌, ◌-◌, ◌*◌, ◌/◌, ◌%◌, ◌^◌, List, [], ◌∷◌, ◌++◌, Option, none, some, Bool, true,
  false, ◌||◌, if◌then◌else◌, ltb, take, length, get_elem?, keep, is_empty, max, map, filter_map,
}
use oprofiler.Base.Options.{◌>>=◌, unwrap_or}
use oprofiler.Base.Text.{Text, codes, lines, contains_text, to_decimal}
use oprofiler.Model.Floats.{Host}
use oprofiler.Model.Threads.{ThreadInfo, ThreadDump, ThreadSummary}
use oprofiler.Model.Views.{label}
use oprofiler.App.State.{App}
use oprofiler.Render.Texts.{truncate_str, spark_char, Shown, shows_empty, shows_lines, shows_table}

abbrev pub newest_dump : List ThreadDump → List ThreadInfo
newest_dump [] = []
newest_dump (dump ∷ []) = dump.threads
newest_dump (dump ∷ next ∷ rest) = newest_dump (next ∷ rest)

unfoldable pub thread_total : {F : Type 0} → ThreadSummary F → ℕ
thread_total h = h.runnable + (h.waiting + (h.timed_waiting + (h.blocked + h.other)))

unfoldable pub most_threads : {F : Type 0} → List (ThreadSummary F) → ℕ
unfolding thread_total
most_threads [] = 0
most_threads (h ∷ rest) = max (thread_total h) (most_threads rest)

-- The places `0 ..< n` of a bar.
unfoldable pub places : ℕ → ℕ → List ℕ
places zero from = []
places (suc n) from = from ∷ places n (from + 1)

abbrev last_summary : {F : Type 0} → List (ThreadSummary F) → List Text
last_summary [] = []
last_summary (h ∷ []) =
    (codes "  R:"
      ++ (to_decimal h.runnable
          ++ (codes " W:"
              ++ (to_decimal h.waiting
                  ++ (codes " TW:"
                      ++ (to_decimal h.timed_waiting ++ (codes " B:" ++ to_decimal h.blocked)))))))
    ∷ []
last_summary (h ∷ next ∷ rest) = last_summary (next ∷ rest)

module _ {F : Type 0} (host : Host F) where
  -- A bar of at most 60 characters over the history.
  unfoldable pub history_bar : (ThreadSummary F → ℕ) → List (ThreadSummary F) → Text
  unfolding most_threads places
  history_bar measure history =
      let most = host.of_nat (max (most_threads history) 1) in
      let step =
        host.f_max (host.div (host.of_nat (length history)) (host.of_nat 60)) (host.of_nat 1) in
      filter_map
        (λ i. get_elem? history (host.to_u64 (host.mul (host.of_nat i) step)) >>= λ h.
          some (spark_char host (host.div (host.of_nat (measure h)) most)))
        (places 60 0)

  unfoldable pub render_thread_history_lines : List (ThreadSummary F) → List Text
  unfolding history_bar
  render_thread_history_lines history =
      if ltb (length history) 2
      then codes "  Waiting for data..." ∷ []
      else (codes "Runnable: " ++ history_bar (λ h. h.runnable) history)
        ∷ (codes "Waiting:  " ++ history_bar (λ h. h.waiting) history)
        ∷ last_summary history

  -- The cells of a thread's row.
  unfoldable pub thread_row : ThreadInfo → Option (List Text)
  thread_row t = do
    name ← truncate_str t.name 30
    top ← truncate_str t.top_frame 50
    some (name ∷ t.state ∷ t.nid ∷ top ∷ [])

  unfoldable pub thread_rows : List ThreadInfo → Option (List (List Text))
  unfolding thread_row
  thread_rows [] = some []
  thread_rows (t ∷ rest) = do row ← thread_row t; rows ← thread_rows rest; some (row ∷ rows)

  abbrev passes_thread_filter : Text → ThreadInfo → Bool
  passes_thread_filter filter t =
      is_empty filter
      || (contains_text (host.to_lowercase t.name) filter
          || contains_text (host.to_lowercase t.top_frame) filter)

  abbrev history_boxes : List (ThreadSummary F) → List Shown
  history_boxes [] = []
  history_boxes (h ∷ rest) =
      shows_lines (codes " Thread History ") (render_thread_history_lines (h ∷ rest)) ∷ []

  abbrev threads_header : List Text
  threads_header = codes "Name" ∷ codes "State" ∷ codes "NID" ∷ codes "Top Frame" ∷ []

  -- The history, where there is one, and the table; `height` is that of the table's area, and `none`
  -- is a panic of a shortened name.
  unfoldable pub render_threads : ℕ → App F → Option (List Shown)
  unfolding thread_rows render_thread_history_lines
  render_threads height app =
      let threads = newest_dump app.threads.dumps in
      let filter = host.to_lowercase app.filter_input in
      if is_empty threads
      then some
          (shows_empty (codes "No thread data") (codes "Press 'r' to capture thread dump") ∷ [])
      else thread_rows (take (height / 2) (keep (passes_thread_filter filter) threads)) >>= λ rows.
          some (
            history_boxes app.threads.history
            ++ (shows_table (codes " Threads (" ++ (label app.selected_view ++ codes ") "))
                  threads_header rows
                ∷ []))

  abbrev pub dump_box : ℕ → ℕ → ThreadDump → Shown
  dump_box height idx dump =
      shows_lines
        (codes " Thread Dump #"
          ++ (to_decimal (idx + 1)
              ++ (codes " - " ++ (to_decimal (length dump.threads) ++ codes " threads "))))
        (take ((height + (2 ^ 64 - 2)) % 2 ^ 64) (lines dump.raw))

  abbrev pub no_dumps : Shown
  no_dumps =
      shows_empty (codes "No thread dumps captured") (codes "Press 'r' to capture thread dump")

  abbrev pub shown_dump : ℕ → List ThreadDump → Option ℕ → Option Shown
  shown_dump height [] selected = some no_dumps
  shown_dump height (newest ∷ rest) selected =
      let idx = unwrap_or selected (length (newest ∷ rest) - 1) in
      get_elem? (newest ∷ rest) idx >>= λ dump. some (dump_box height idx dump)

  -- The selected dump; `none` is the panic of an index out of range. The subtraction from the height
  -- wraps around in the release build.
  unfoldable pub render_thread_dumps : ℕ → App F → Option Shown
  render_thread_dumps height app = shown_dump height app.threads.dumps app.threads.selected_dump
