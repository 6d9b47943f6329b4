-- ===== src/Event/Terminal/Debounce.antt =====
-- crates/tui/src/lib.rs: which keys the debouncer lets through.
use oprofiler.Base.{ℕ, ◌+◌, ◌<◌, ◌≡◌, Bool, true, false, not, arith, ltb}
use oprofiler.Event.{KeyCode, KeyEvent, press}
use oprofiler.Event.Terminal.{
  KeyDebounce, debounce_nanos, should_accept, is_navigation_key, same_key_iff,
}

-- Whether the debouncer accepts an event.
abbrev pub is_accepted : ℕ → KeyEvent → KeyDebounce → Bool
is_accepted now key d = (should_accept now key d).1

-- The debouncer after an event.
abbrev pub after_key : ℕ → KeyEvent → KeyDebounce → KeyDebounce
after_key now key d = (should_accept now key d).0

-- Two presses of one key with the same modifiers, the second `later` nanoseconds after the first,
-- where the key is no navigation key and the first press is accepted: the second is accepted if
-- and only if 180 ms have passed, and where it is rejected the debouncer keeps the first press.
pub press_twice :
    (d : KeyDebounce) (code : KeyCode) (modifiers now later : ℕ)
    → is_navigation_key code ≡ false
    → is_accepted now (record { key_code = code; modifiers = modifiers; kind = press }) d ≡ true
    → let key : KeyEvent = record { key_code = code; modifiers = modifiers; kind = press } in
      let first = after_key now key d in
      (is_accepted (now + later) key first ≡ not (ltb later debounce_nanos))
      × (later < debounce_nanos → after_key (now + later) key first ≡ first)
unfolding should_accept
press_twice d code modifiers now later plain accepted = ground (arith, same_key_iff code code)
