-- ===== src/Jvm/ThreadDump/Frames.antt =====
-- crates/core/src/jvm.rs: when the thread-dump parser returns, and what it keeps of the frames.
use oprofiler.Base.{
  ◌≡◌, refl, List, [], ◌∷◌, Option, none, some, length, arith, All, Option-cases, Bool-cases, inl,
  inr, length-append, subst, ℕ, ◌<◌, ◌≢◌,
}
use oprofiler.Base.Text.{Text, codes, trim, strip_prefix, starts_with, lines, rfind_char}
use oprofiler.Seq.{All-append}
use oprofiler.Model.Threads.{StackTraceElement, ThreadInfo}
use oprofiler.Jvm.ThreadDump.{
  parse_stack_trace_element, thread_line, thread_lines, new_thread, parse_thread_dump, finished,
  add_frame, split_parens,
}

-- A text has no `(`, or no `)`, or its last `(` stands before its last `)`.
abbrev pub InOrder : Option ℕ → Option ℕ → Type 0
InOrder none closed = Unit {0}
InOrder (some opened) none = Unit {0}
InOrder (some opened) (some closed) = opened < closed

abbrev FrameInOrder : Option Text → Type 0
FrameInOrder none = Unit {0}
FrameInOrder (some frame) = InOrder (rfind_char b'(' (trim frame)) (rfind_char b')' (trim frame))

-- If the line is a frame, its parentheses stand in order.
abbrev pub HasParensInOrder : Text → Type 0
HasParensInOrder line = FrameInOrder (strip_prefix (codes "at ") (trim line))

rfind_char-lt : (k i : ℕ) (s : Text) → rfind_char k s ≡ some i → i < length s
unfolding rfind_char
rfind_char-lt k i [] e = absurd (ground (arith, e))
rfind_char-lt k i (c ∷ s) e = elim (Option-cases (rfind_char k s)) [
  | inl f ↦ ground (arith, e, f)
  | inr (j, f) ↦ ground (arith, e, f, rfind_char-lt k j s f)
]

-- A text with its parentheses in order is taken apart without a panic.
split_parens-ne-none :
    (frame : Text)
    → InOrder (rfind_char b'(' frame) (rfind_char b')' frame)
    → split_parens frame ≢ none
unfolding split_parens
split_parens-ne-none frame ordered = elim (Option-cases (rfind_char b'(' frame)) [
  | inl e ↦ ground (arith, e)
  | inr (opened, e) ↦ elim (Option-cases (rfind_char b')' frame)) [
    | inl f ↦ ground (arith, e, f, rfind_char-lt b'(' opened frame e)
    | inr (closed, f) ↦ ground (arith, e, f, ordered)
  ]
]

parse_stack_trace_element-ne-none :
    (text : Text)
    → InOrder (rfind_char b'(' (trim text)) (rfind_char b')' (trim text))
    → parse_stack_trace_element text ≢ none
unfolding parse_stack_trace_element
parse_stack_trace_element-ne-none text ordered = elim (Option-cases (split_parens (trim text))) [
  | inl e ↦ absurd (split_parens-ne-none (trim text) ordered e)
  | inr (parts, e) ↦ ground (arith, e)
]

-- Every frame of the thread has its parsed form.
abbrev pub IsMatched : ThreadInfo → Type 0
IsMatched thread = length thread.frames ≡ length thread.stack_trace

abbrev MatchedOne : Option ThreadInfo → Type 0
MatchedOne none = ⊥
MatchedOne (some thread) = IsMatched thread

abbrev MatchedRest : Option ThreadInfo → Type 0
MatchedRest none = Unit {0}
MatchedRest (some thread) = IsMatched thread

-- The parser returns, and all its threads are matched.
abbrev pub ParsesMatched : Option (List ThreadInfo) → Type 0
ParsesMatched none = ⊥
ParsesMatched (some threads) = All IsMatched threads

new_thread-IsMatched : (line : Text) → IsMatched (new_thread line)
unfolding new_thread
new_thread-IsMatched line = refl

add_frame-IsMatched :
    (thread : ThreadInfo) (frame : Text) (element : StackTraceElement)
    → IsMatched thread
    → IsMatched (add_frame thread frame element)
add_frame-IsMatched thread frame element m = omega (
  arith,
  m,
  length-append thread.frames (frame ∷ []),
  length-append thread.stack_trace (element ∷ []),
)

thread_line-MatchedOne :
    (line : Text) (thread : ThreadInfo)
    → HasParensInOrder line
    → IsMatched thread
    → MatchedOne (thread_line line thread)
unfolding thread_line
thread_line-MatchedOne line thread safe m =
    elim (Option-cases (strip_prefix (codes "java.lang.Thread.State:") (trim line))) [
      | inr (state, e) ↦ rw (e, thread_line) m
      | inl e ↦ elim (Option-cases (strip_prefix (codes "at ") (trim line))) [
        | inl f ↦ ground (arith)
        | inr (frame, f) ↦ elim (Option-cases (parse_stack_trace_element frame)) [
          | inl g ↦ absurd (parse_stack_trace_element-ne-none frame (subst FrameInOrder f safe) g)
          | inr (element, g) ↦ ground (arith, add_frame-IsMatched thread frame element m)
        ]
      ]
    ]

finished-IsMatched :
    (threads : List ThreadInfo) (current : Option ThreadInfo)
    → All IsMatched threads
    → MatchedRest current
    → All IsMatched (finished threads current)
finished-IsMatched threads none a m = a
finished-IsMatched threads (some thread) a m = All-append IsMatched threads (thread ∷ []) a (m, tt)

thread_lines-ParsesMatched :
    (rest : List Text) (threads : List ThreadInfo) (current : Option ThreadInfo)
    → All HasParensInOrder rest
    → All IsMatched threads
    → MatchedRest current
    → ParsesMatched (thread_lines rest threads current)
unfolding thread_lines
thread_lines-ParsesMatched [] threads current s a m = finished-IsMatched threads current a m
thread_lines-ParsesMatched (line ∷ rest) threads none (safe, s) a m =
    elim (Bool-cases (starts_with line (codes "\""))) [
      | inl e ↦
          rw (e, thread_lines)
            (thread_lines-ParsesMatched rest threads (some (new_thread line)) s a
              (new_thread-IsMatched line))
      | inr e ↦ rw (e, thread_lines) (thread_lines-ParsesMatched rest threads none s a tt)
    ]
thread_lines-ParsesMatched (line ∷ rest) threads (some thread) (safe, s) a m =
    elim (Bool-cases (starts_with line (codes "\""))) [
      | inl e ↦
          rw (e, thread_lines)
            (thread_lines-ParsesMatched rest (finished threads (some thread))
              (some (new_thread line)) s (finished-IsMatched threads (some thread) a m)
              (new_thread-IsMatched line))
      | inr e ↦ elim (Option-cases (thread_line line thread)) [
        | inl f ↦ absurd (subst MatchedOne f (thread_line-MatchedOne line thread safe m))
        | inr (thread', f) ↦
            rw (e, f, thread_lines)
              (thread_lines-ParsesMatched rest threads (some thread') s a
                (subst MatchedOne f (thread_line-MatchedOne line thread safe m)))
      ]
    ]

-- If every line that is a frame has its parentheses in order, the parser returns, and each thread
-- that it returns has as many parsed frames as frames.
pub parse_thread_dump-ParsesMatched :
    (raw : Text) → All HasParensInOrder (lines raw) → ParsesMatched (parse_thread_dump raw)
unfolding parse_thread_dump
parse_thread_dump-ParsesMatched raw s = thread_lines-ParsesMatched (lines raw) [] none s tt tt
