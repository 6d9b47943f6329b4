-- ===== src/App/Invariant/Turn.antt =====
-- app.rs and event.rs: what each turn of the terminal loop and each key do keeps the application
-- valid, and no key panics.
use oprofiler.Base.{
  ℕ, true, false, Option, none, some, arith, Result, inl, inr, Bool-cases, ◌==◌, ◌||◌, pos, negsuc,
}
use oprofiler.Base.Text.{Text}
use oprofiler.Model.Floats.{Host}
use oprofiler.Model.Views.{tele_overview, cpu_hot_spots, live_allocation_hot_spots, databases_jdbc}
use oprofiler.App.State.{App, Now, InputMode}
use oprofiler.App.Session.{spawn_refresh_telemetry}
use oprofiler.App.Update.{
  start_if_awaited, tick, load_memory_once, refresh_threads, auto_update, select_current,
}
use oprofiler.App.Invariant.{IsValid}
use oprofiler.App.Invariant.Moves.{
  Returns, toggle_hotspot-IsValid, toggle_allocation-IsValid, move_selection-Returns,
  navigate_left-IsValid, navigate_right-IsValid, go_to_view-IsValid, toggle_focus_pane-IsValid,
  enter_filter_mode-IsValid, show_item-Returns,
}
use oprofiler.App.Invariant.Actions.{
  spawn_fetch-IsValid, spawn_refresh_telemetry-IsValid, start_initial-IsValid,
  refresh_current-IsValid, toggle_recording-IsValid, run_gc-IsValid, mark_heap-IsValid,
  copy-IsValid, start_session-IsValid, spawn_refresh_live_memory-IsValid,
  spawn_capture_thread_dump-IsValid,
}
use oprofiler.Event.{
  KeyCode, KeyEvent, Outcome, went_on, handle_char, handle_normal_input, handle_filter_input,
  handle_key, is_key, up, down, left, right, page_up, page_down, tab, back_tab, enter, char,
}

module _ {F : Type 0} (host : Host F) (now : Now) where
  start_if_awaited-IsValid : (app : App F) → IsValid app → IsValid (start_if_awaited host now app)
  unfolding start_if_awaited
  start_if_awaited-IsValid app v =
      let unset : App F = record app { pending_initial_cpu_start = false } in
      let unset_valid : IsValid unset = ground arith in
      ground (arith, start_initial-IsValid now unset unset_valid)

  tick-IsValid : (app : App F) → IsValid app → IsValid (tick host now app)
  unfolding tick
  tick-IsValid app v =
      let ticked : App F = record app { last_tick = now.instant } in
      let ticked_valid : IsValid ticked = ground arith in
      let refreshed_valid : IsValid (spawn_refresh_telemetry host now ticked) =
        spawn_refresh_telemetry-IsValid host now ticked ticked_valid in
      ground (
        arith,
        ticked_valid,
        refreshed_valid,
        spawn_fetch-IsValid ticked ticked_valid,
        spawn_fetch-IsValid (spawn_refresh_telemetry host now ticked) refreshed_valid,
      )

  load_memory_once-IsValid : (app : App F) → IsValid app → IsValid (load_memory_once host now app)
  unfolding load_memory_once
  load_memory_once-IsValid app v =
      let loaded : App F = record app { memory = record app.memory { loaded_once = true } } in
      let loaded_valid : IsValid loaded = ground arith in
      ground (arith, loaded_valid, spawn_refresh_live_memory-IsValid now loaded loaded_valid)

  refresh_threads-IsValid : (app : App F) → IsValid app → IsValid (refresh_threads host now app)
  unfolding refresh_threads
  refresh_threads-IsValid app v =
      let dated : App F = record app { last_thread_refresh = now.instant } in
      let dated_valid : IsValid dated = ground arith in
      ground (arith, dated_valid, spawn_capture_thread_dump-IsValid now dated dated_valid)

  pub auto_update-IsValid : (app : App F) → IsValid app → IsValid (auto_update host now app)
  unfolding auto_update
  auto_update-IsValid app v =
      let updated =
        refresh_threads-IsValid _
          (load_memory_once-IsValid _ (tick-IsValid _ (start_if_awaited-IsValid app v))) in
      ground (arith, updated)

  pub select_current-Returns : (app : App F) → IsValid app → Returns (select_current host now app)
  unfolding select_current
  select_current-Returns app v = ground (
    arith,
    start_session-IsValid host now app v,
    show_item-Returns app v,
    toggle_hotspot-IsValid host app v,
    toggle_allocation-IsValid host app v,
  )

-- The handler returns, and to a valid application.
abbrev pub Handles : {F : Type 0} → Outcome F → Type 0
Handles none = ⊥
Handles (some (app, result)) = IsValid app

module _ {F : Type 0} (host : Host F) (now : Now) (copied : Text → Result (Unit {0})) where
  went_on-Handles :
      (mode : InputMode) (answer : Option (App F)) → Returns answer → Handles (went_on mode answer)
  went_on-Handles mode none v = absurd v
  went_on-Handles mode (some app) v = v

  filter_input-IsValid :
      (key : KeyEvent) (app : App F) → IsValid app → IsValid (handle_filter_input key app).0
  unfolding handle_filter_input
  filter_input-IsValid key app v = ground arith

  handle_char-Handles :
      (c modifiers : ℕ) (app : App F)
      → IsValid app
      → Handles (handle_char host now copied c modifiers app)
  unfolding handle_char
  handle_char-Handles c modifiers app v = elim (Bool-cases (is_key c b'q' b'Q')) [
    | inl e ↦ rw (e, handle_char) (v)
    | inr e ↦
        rw (e, handle_char)
          (elim (Bool-cases (c == b'j')) [
            | inl e ↦
                rw (e, handle_char)
                  (went_on-Handles app.input_mode _ (move_selection-Returns host now (pos 1) app v))
            | inr e ↦
                rw (e, handle_char)
                  (elim (Bool-cases (c == b'k')) [
                    | inl e ↦
                        rw (e, handle_char)
                          (went_on-Handles app.input_mode _
                            (move_selection-Returns host now (negsuc 0) app v))
                    | inr e ↦
                        rw (e, handle_char)
                          (elim (Bool-cases (c == b'h')) [
                            | inl e ↦ rw (e, handle_char) (navigate_left-IsValid host app v)
                            | inr e ↦
                                rw (e, handle_char)
                                  (elim (Bool-cases (c == b'l')) [
                                    | inl e ↦
                                        rw (e, handle_char) (navigate_right-IsValid host app v)
                                    | inr e ↦
                                        rw (e, handle_char)
                                          (elim (Bool-cases (is_key c b'r' b'R')) [
                                            | inl e ↦
                                                rw (e, handle_char)
                                                  (refresh_current-IsValid host now app v)
                                            | inr e ↦
                                                rw (e, handle_char)
                                                  (elim (Bool-cases (is_key c b's' b'S')) [
                                                    | inl e ↦
                                                        rw (e, handle_char)
                                                          (toggle_recording-IsValid host now app v)
                                                    | inr e ↦
                                                        rw (e, handle_char)
                                                          (elim (Bool-cases (is_key c b'g' b'G')) [
                                                            | inl e ↦
                                                              rw (e, handle_char)
                                                              (run_gc-IsValid now app v)
                                                            | inr e ↦
                                                              rw (e, handle_char)
                                                              (elim (Bool-cases
                                                              (is_key c b'm' b'M')) [
                                                                | inl e ↦
                                                                  rw (e, handle_char)
                                                                  (mark_heap-IsValid now app v)
                                                                | inr e ↦
                                                                  rw (e, handle_char)
                                                                  (elim (Bool-cases
                                                                  (is_key c b'c' b'C')) [
                                                                    | inl e ↦
                                                                      rw (e, handle_char)
                                                                      (copy-IsValid host now copied
                                                                      app v)
                                                                    | inr e ↦
                                                                      rw (e, handle_char)
                                                                      (elim (Bool-cases (
                                                                      is_key c b'f' b'F'
                                                                      || c == b'/')) [
                                                                        | inl e ↦
                                                                          rw (e, handle_char)
                                                                          (enter_filter_mode-IsValid
                                                                          {app = app} v)
                                                                        | inr e ↦
                                                                          rw (e, handle_char)
                                                                          (elim (Bool-cases
                                                                          (c == b'1')) [
                                                                            | inl e ↦
                                                                              rw (e, handle_char)
                                                                              (go_to_view-IsValid
                                                                              tele_overview
                                                                              {app = app} v)
                                                                            | inr e ↦
                                                                              rw (e, handle_char)
                                                                              (elim (Bool-cases
                                                                              (c == b'2')) [
                                                                                | inl e ↦
                                                                                  rw
                                                                                  (e, handle_char)
                                                                                  (go_to_view-IsValid
                                                                                  cpu_hot_spots
                                                                                  {app = app} v)
                                                                                | inr e ↦
                                                                                  rw
                                                                                  (e, handle_char)
                                                                                  (elim (Bool-cases
                                                                                  (c == b'3')) [
                                                                                    | inl e ↦
                                                                                      rw
                                                                                      (
                                                                                      e,
                                                                                      handle_char,
                                                                                      )
                                                                                      (go_to_view-IsValid
                                                                                      live_allocation_hot_spots
                                                                                      {app = app} v)
                                                                                    | inr e ↦
                                                                                      rw
                                                                                      (
                                                                                      e,
                                                                                      handle_char,
                                                                                      )
                                                                                      (elim (Bool-cases
                                                                                      (c == b'4')) [
                                                                                        | inl e ↦
                                                                                          rw
                                                                                          (
                                                                                          e,
                                                                                          handle_char,
                                                                                          )
                                                                                          (go_to_view-IsValid
                                                                                          databases_jdbc
                                                                                          {app = app}
                                                                                          v)
                                                                                        | inr e ↦
                                                                                          rw
                                                                                          (
                                                                                          e,
                                                                                          handle_char,
                                                                                          )
                                                                                          (v)
                                                                                      ])
                                                                                  ])
                                                                              ])
                                                                          ])
                                                                      ])
                                                                  ])
                                                              ])
                                                          ])
                                                  ])
                                          ])
                                  ])
                          ])
                  ])
          ])
  ]

  normal_input-Handles :
      (key : KeyEvent) (app : App F)
      → IsValid app
      → Handles (handle_normal_input host now copied key app)
  unfolding handle_normal_input
  normal_input-Handles key app v = by_code key.key_code
    where
      by_code :
          (code : KeyCode)
          → Handles (handle_normal_input host now copied (record key { key_code = code }) app)
      by_code tab = toggle_focus_pane-IsValid {app = app} v
      by_code back_tab = toggle_focus_pane-IsValid {app = app} v
      by_code down = went_on-Handles _ _ (move_selection-Returns host now (pos 1) app v)
      by_code up = went_on-Handles _ _ (move_selection-Returns host now (negsuc 0) app v)
      by_code page_down = went_on-Handles _ _ (move_selection-Returns host now (pos 20) app v)
      by_code page_up = went_on-Handles _ _ (move_selection-Returns host now (negsuc 19) app v)
      by_code left = navigate_left-IsValid host app v
      by_code right = navigate_right-IsValid host app v
      by_code enter = went_on-Handles _ _ (select_current-Returns host now app v)
      by_code (char c) = handle_char-Handles c key.modifiers app v
      by_code _ = v

  pub handle_key-Handles :
      (key : KeyEvent) (app : App F) → IsValid app → Handles (handle_key host now copied key app)
  unfolding handle_key
  handle_key-Handles key app v =
      ground (arith, filter_input-IsValid key app v, normal_input-Handles key app v)
