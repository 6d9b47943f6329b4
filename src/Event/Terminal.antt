-- ===== src/Event/Terminal.antt =====
-- crates/tui/src/lib.rs: the turns of the terminal loop, the debouncing of keys, and arguments.
pub mod Debounce
use oprofiler.Base.{
  ℕ, ◌-◌, Bool, true, false, not, ◌&&◌, ◌||◌, ◌≡◌, ◌↔◌, List, [], ◌∷◌, Option, none, some, ltb,
  ◌==◌, if◌then◌else◌, Result, ℕ_discrete, arith,
}
use oprofiler.Base.Text.{Text, text_eq}
use oprofiler.Model.Floats.{Host}
use oprofiler.App.State.{App, Now, InputMode, normal, filter}
use oprofiler.App.Results.{poll_queries}
use oprofiler.App.Update.{auto_update}
use oprofiler.Event.{
  KeyCode, KeyEvent, KeyEventKind, KeyEventResult, press, repeat, release, up, down, left, right,
  page_up, page_down, esc, char, is_pressed, handle_key,
}

-- `args.windows(2).find(|w| w[0] == name).map(|w| w[1])`.
unfoldable pub arg_value : List Text → Text → Option Text
arg_value [] name = none
arg_value (a ∷ []) name = none
arg_value (a ∷ b ∷ rest) name = if text_eq a name then some b else arg_value (b ∷ rest) name

KeyCode-discrete : Discrete KeyCode
KeyCode-discrete = hlevel ℕ_discrete

unfoldable pub same_key : KeyCode → KeyCode → Bool
unfolding KeyCode-discrete
same_key k l = elim (KeyCode-discrete k l) [ yes _ ↦ true | no _ ↦ false ]

pub same_key_iff : (k l : KeyCode) → (same_key k l ≡ true) ↔ (k ≡ l)
unfolding same_key
same_key_iff k l = ground arith

unfoldable pub is_navigation_key : KeyCode → Bool
is_navigation_key key_code = elim key_code [
  | up ↦ true
  | down ↦ true
  | left ↦ true
  | right ↦ true
  | page_up ↦ true
  | page_down ↦ true
  | char c ↦ c == b'h' || c == b'j' || c == b'k' || c == b'l'
  | _ ↦ false
]

-- The key that was accepted last, with its modifiers and its time.
pub record KeyDebounce : Type 0 where
  pub last : Option (KeyCode × ℕ × ℕ)

abbrev pub debounce_nanos : ℕ
debounce_nanos = 180_000_000

abbrev is_repeat : KeyEventKind → Bool
is_repeat repeat = true
is_repeat press = false
is_repeat release = false

abbrev pub repeats_last : Option (KeyCode × ℕ × ℕ) → KeyEvent → ℕ → Bool
repeats_last none key now = false
repeats_last (some (key_code, modifiers, at)) key now =
    same_key key_code key.key_code && modifiers == key.modifiers && ltb (now - at) debounce_nanos

unfoldable pub should_accept : ℕ → KeyEvent → KeyDebounce → KeyDebounce × Bool
unfolding is_navigation_key
should_accept now key d =
    if not (is_pressed key.kind)
    then (d, false)
    else if is_repeat key.kind || is_navigation_key key.key_code
    then (d, true)
    else if repeats_last d.last key now
    then (d, false)
    else (record { last = some (key.key_code, key.modifiers, now) }, true)

-- The terminal loop's state: the application, the debouncer, and whether the program goes on.
pub record Terminal (F : Type 0) : Type 0 where
  pub app : App F
  pub debounce : KeyDebounce
  pub running : Bool

abbrev pub is_normal : InputMode → Bool
is_normal normal = true
is_normal filter = false

module _ {F : Type 0} where
  -- What the loop does with the result of a key.
  abbrev pub conclude : Terminal F → Option (App F × KeyEventResult) → Option (Terminal F)
  conclude t none = none
  conclude t (some (app, result)) =
      if result.should_quit
      then some (record t { app = app; running = false })
      else some (record t { app = record app { input_mode = result.input_mode } })

module _ {F : Type 0} (host : Host F) (now : Now) where
  -- What each turn does before it waits for an event.
  unfoldable pub refresh_turn : Terminal F → Terminal F
  refresh_turn t = record t { app = auto_update host now (poll_queries host now t.app) }

  -- What a turn does with a key event; `none` is a panic.
  unfoldable pub key_turn : (Text → Result (Unit {0})) → KeyEvent → Terminal F → Option (Terminal F)
  unfolding should_accept
  key_turn copied key t =
      let (debounce, accepted) = should_accept now.instant key t.debounce in
      let polled = poll_queries host now t.app in
      let t' : Terminal F = record t { app = polled; debounce = debounce } in
      if not accepted
      then some (record t { debounce = debounce })
      else if same_key key.key_code (char b'?') && is_normal polled.input_mode
      then some (record t' { app = record polled { show_help = not polled.show_help } })
      else if polled.show_help && same_key key.key_code esc
      then some (record t' { app = record polled { show_help = false } })
      else if polled.show_help
      then some t'
      else conclude t' (handle_key host now copied key polled)
