-- ===== src/Event.antt =====
-- crates/tui/src/event.rs and the key handling of crates/tui/src/lib.rs.
pub mod Terminal
use oprofiler.Base.{
  ℕ, Bool, true, false, not, ◌||◌, pos, negsuc, [], ◌∷◌, ◌++◌, Option, none, some, ◌==◌,
  if◌then◌else◌, Result, pop_back,
}
use Prim.Native.Nat.{bit_and}
use oprofiler.Base.Text.{Text}
use oprofiler.Model.Floats.{Host}
use oprofiler.Model.Views.{tele_overview, cpu_hot_spots, live_allocation_hot_spots, databases_jdbc}
use oprofiler.App.State.{App, Now, InputMode, normal, filter}
use oprofiler.App.Selection.{toggle_focus_pane, enter_filter_mode, go_to_view}
use oprofiler.App.Session.{refresh_current, toggle_recording, run_gc, mark_heap, copy_selected_item}
use oprofiler.App.Update.{move_selection, navigate_left, navigate_right, select_current}

-- The keys of crossterm that the code tells apart.
pub data KeyCode : Type 0 where
  esc enter backspace tab back_tab down up left right page_down page_up : KeyCode
  char : ℕ → KeyCode
  other_key : ℕ → KeyCode

pub data KeyEventKind : Type 0 where
  press repeat release : KeyEventKind

-- The modifiers are a set of bits; `NONE` is the empty set.
pub record KeyEvent : Type 0 where
  pub key_code : KeyCode
  pub modifiers : ℕ
  pub kind : KeyEventKind

-- `bitflags`: all bits of the second are in the first.
abbrev pub contains_bits : ℕ → ℕ → Bool
contains_bits a b = bit_and a b == b

pub record KeyEventResult : Type 0 where
  pub should_quit : Bool
  pub input_mode : InputMode

abbrev pub is_pressed : KeyEventKind → Bool
is_pressed press = true
is_pressed repeat = true
is_pressed release = false

-- The state after a key, and what the key's handler tells the terminal loop.
abbrev pub Outcome : Type 0 → Type 0
Outcome F = Option (App F × KeyEventResult)

abbrev pub is_key : ℕ → ℕ → ℕ → Bool
is_key c lower upper = c == lower || c == upper

module _ {F : Type 0} where
  unfoldable pub handle_filter_input : KeyEvent → App F → App F × KeyEventResult
  handle_filter_input key app = elim key.key_code [
    | esc ↦
        (record app { input_mode = normal }, record { should_quit = false; input_mode = normal })
    | enter ↦
        (record app { input_mode = normal }, record { should_quit = false; input_mode = normal })
    | backspace ↦ (
      record app { filter_input = pop_back app.filter_input },
      record { should_quit = false; input_mode = app.input_mode },
    )
    | char c ↦ (
      record app { filter_input = app.filter_input ++ c ∷ [] },
      record { should_quit = false; input_mode = app.input_mode },
    )
    | _ ↦ (app, record { should_quit = false; input_mode = app.input_mode })
  ]

  -- The result of a key that does not end the program, with the mode at the key's arrival.
  abbrev pub went_on : InputMode → Option (App F) → Outcome F
  went_on mode none = none
  went_on mode (some app) = some (app, record { should_quit = false; input_mode = mode })

module _ {F : Type 0} (host : Host F) (now : Now) (copied : Text → Result (Unit {0})) where
  unfoldable pub handle_char : ℕ → ℕ → App F → Outcome F
  handle_char c modifiers app =
      let mode = app.input_mode in
      if is_key c b'q' b'Q'
      then some (app, record { should_quit = contains_bits modifiers 0; input_mode = mode })
      else if c == b'j'
      then went_on mode (move_selection host now (pos 1) app)
      else if c == b'k'
      then went_on mode (move_selection host now (negsuc 0) app)
      else if c == b'h'
      then went_on mode (some (navigate_left host app))
      else if c == b'l'
      then went_on mode (some (navigate_right host app))
      else if is_key c b'r' b'R'
      then went_on mode (some (refresh_current host now app))
      else if is_key c b's' b'S'
      then went_on mode (some (toggle_recording host now app))
      else if is_key c b'g' b'G'
      then went_on mode (some (run_gc now app))
      else if is_key c b'm' b'M'
      then went_on mode (some (mark_heap now app))
      else if is_key c b'c' b'C'
      then went_on mode (some (copy_selected_item host now copied app))
      else if is_key c b'f' b'F' || c == b'/'
      then went_on filter (some (enter_filter_mode app))
      else if c == b'1'
      then went_on mode (some (go_to_view tele_overview app))
      else if c == b'2'
      then went_on mode (some (go_to_view cpu_hot_spots app))
      else if c == b'3'
      then went_on mode (some (go_to_view live_allocation_hot_spots app))
      else if c == b'4'
      then went_on mode (some (go_to_view databases_jdbc app))
      else went_on mode (some app)

  unfoldable pub handle_normal_input : KeyEvent → App F → Outcome F
  unfolding handle_char
  handle_normal_input key app =
      let mode = app.input_mode in
      elim key.key_code [
        | tab ↦ went_on mode (some (toggle_focus_pane app))
        | back_tab ↦ went_on mode (some (toggle_focus_pane app))
        | down ↦ went_on mode (move_selection host now (pos 1) app)
        | up ↦ went_on mode (move_selection host now (negsuc 0) app)
        | page_down ↦ went_on mode (move_selection host now (pos 20) app)
        | page_up ↦ went_on mode (move_selection host now (negsuc 19) app)
        | left ↦ went_on mode (some (navigate_left host app))
        | right ↦ went_on mode (some (navigate_right host app))
        | enter ↦ went_on mode (select_current host now app)
        | char c ↦ handle_char c key.modifiers app
        | _ ↦ went_on mode (some app)
      ]

  unfoldable pub handle_key : KeyEvent → App F → Outcome F
  unfolding handle_filter_input handle_normal_input
  handle_key key app =
      if not (is_pressed key.kind)
      then some (app, record { should_quit = false; input_mode = app.input_mode })
      else elim app.input_mode [
        | filter ↦ some (handle_filter_input key app)
        | normal ↦ handle_normal_input key app
      ]
