-- ===== src/Jvm/ThreadDump.antt =====
-- jvm.rs: the parser of `jcmd Thread.print`. `none` stands for the panic of a slice that ends before
-- it begins.
pub mod Frames
use oprofiler.Base.{
  ℕ, zero, suc, ◌+◌, ◌-◌, ◌^◌, Bool, ◌||◌, List, [], ◌∷◌, ◌++◌, Option, none, some, length, take,
  drop, get_or, is_empty, find_first, ltb, if◌then◌else◌,
}
use oprofiler.Base.Text.{
  Text, codes, text_eq, starts_with, strip_prefix, find_text, find_char, rfind_char, split_char,
  split_whitespace, trim, lines, parse_radix,
}
use oprofiler.Model.Threads.{StackTraceElement, ThreadInfo, LockInfo}

-- What stands before the last `(`, and between it and the last `)`.
unfoldable pub split_parens : Text → Option (Text × Text)
split_parens frame = elim (rfind_char b'(' frame) [
  | none ↦ some (frame, [])
  | some opened ↦
      let closed = elim (rfind_char b')' frame) as (λ _. ℕ) [ none ↦ length frame | some i ↦ i ] in
      if ltb closed (opened + 1)
      then none
      else some (take opened frame, take (closed - (opened + 1)) (drop (opened + 1) frame))
]

-- The file and the line in the parentheses.
unfoldable pub source_of : Text → Option Text × Option ℕ
source_of in_paren =
    if text_eq in_paren (codes "Native Method")
    then (none, none)
    else elim (rfind_char b':' in_paren) [
      | some colon ↦
          (some (take colon in_paren), parse_radix 10 (2 ^ 32 - 1) (drop (colon + 1) in_paren))
      | none ↦ (if is_empty in_paren then none else some in_paren, none)
    ]

-- The class, the method and its descriptor.
unfoldable pub method_of : Text → Text × Text × Text
method_of before_paren = elim (rfind_char b'.' before_paren) [
  | none ↦ ([], before_paren, [])
  | some last_dot ↦
      let class_name = take last_dot before_paren in
      let name = drop (last_dot + 1) before_paren in
      elim (find_char b'(' name) [
        | none ↦ (class_name, name, [])
        | some paren ↦ (class_name, take paren name, drop paren name)
      ]
]

abbrev element_of : Text → Text × Text → StackTraceElement
element_of frame (before_paren, in_paren) =
    let (file_name, line_number) = source_of in_paren in
    let (class_name, method_name, descriptor) = method_of before_paren in
    record {
      class_name = class_name;
      method_name = method_name;
      descriptor = descriptor;
      file_name = file_name;
      line_number = line_number;
      native_method = text_eq in_paren (codes "Native Method");
      raw = frame;
    }

unfoldable pub parse_stack_trace_element : Text → Option StackTraceElement
unfolding split_parens source_of method_of
parse_stack_trace_element text =
    let frame = trim text in
    elim (split_parens frame) [ none ↦ none | some parts ↦ some (element_of frame parts) ]

-- The text behind a marker and up to a closing character.
unfoldable pub between : Text → ℕ → Text → Option Text
between opening closing line = elim (find_text line opening) [
  | none ↦ none
  | some start ↦
      let rest = drop (start + length opening) line in
      elim (find_char closing rest) [ none ↦ none | some stop ↦ some (take stop rest) ]
]

unfoldable pub extract_lock_class : Text → Option Text
unfolding between
extract_lock_class line = between (codes "(a ") b')' line

unfoldable pub extract_lock_identity : Text → Option ℕ
unfolding between
extract_lock_identity line = elim (between (codes "<0x") b'>' line) [
  | none ↦ none
  | some digits ↦ parse_radix 16 (2 ^ 64 - 1) digits
]

-- `trim_start_matches` of a text of at least one character.
unfoldable pub trim_start_rounds : ℕ → Text → Text → Text
trim_start_rounds zero prefix s = s
trim_start_rounds (suc rounds) prefix s =
    let shorter = trim_start_rounds rounds prefix (drop (length prefix) s) in
    if starts_with s prefix then shorter else s

abbrev nid_of : Option Text → Text
nid_of none = codes "-"
nid_of (some part) = trim_start_rounds (length part) (codes "nid=") part

unfoldable pub new_thread : Text → ThreadInfo
unfolding trim_start_rounds
new_thread line = record {
  name = get_or (split_char b'"' line) 1 (codes "<unnamed>");
  state = codes "UNKNOWN";
  nid = nid_of (find_first (λ part. starts_with part (codes "nid=")) (split_whitespace line));
  top_frame = [];
  frames = [];
  stack_trace = [];
  lock_info = none;
}

abbrev or_text : Option Text → Text → Text
or_text none d = d
or_text (some t) d = t

abbrev or_zero : Option ℕ → ℕ
or_zero none = 0
or_zero (some n) = n

abbrev locks : Text → Bool
locks trimmed = starts_with trimmed (codes "- locked") || starts_with trimmed (codes "   locking")

abbrev pub is_lock_line : Text → Bool
is_lock_line trimmed =
    starts_with trimmed (codes "- waiting on")
    || starts_with trimmed (codes "- waiting to lock")
    || locks trimmed

unfoldable pub lock_of : Text → LockInfo
unfolding extract_lock_class extract_lock_identity
lock_of trimmed = record {
  lock_class = or_text (extract_lock_class trimmed) (codes "Unknown");
  lock_identity = or_zero (extract_lock_identity trimmed);
  waiting_on = if starts_with trimmed (codes "- waiting") then some trimmed else none;
  owning = if locks trimmed then some trimmed else none;
}

abbrev pub add_frame : ThreadInfo → Text → StackTraceElement → ThreadInfo
add_frame thread frame element = record thread {
  top_frame = if is_empty thread.top_frame then frame else thread.top_frame;
  frames = thread.frames ++ frame ∷ [];
  stack_trace = thread.stack_trace ++ element ∷ [];
}

abbrev first_lock : Option LockInfo → LockInfo → Option LockInfo
first_lock none lock = some lock
first_lock (some held) lock = some held

-- A line below a thread's first line: its state, a frame, a lock, or nothing of note.
unfoldable pub thread_line : Text → ThreadInfo → Option ThreadInfo
unfolding lock_of
thread_line line thread =
    let trimmed = trim line in
    elim (strip_prefix (codes "java.lang.Thread.State:") trimmed) [
      | some state ↦
          some (record thread { state = get_or (split_whitespace state) 0 (codes "UNKNOWN") })
      | none ↦ elim (strip_prefix (codes "at ") trimmed) [
        | some frame ↦ elim (parse_stack_trace_element frame) [
          | none ↦ none
          | some element ↦ some (add_frame thread frame element)
        ]
        | none ↦
            if is_lock_line trimmed
            then some (record thread { lock_info = first_lock thread.lock_info (lock_of trimmed) })
            else some thread
      ]
    ]

abbrev pub finished : List ThreadInfo → Option ThreadInfo → List ThreadInfo
finished threads none = threads
finished threads (some thread) = threads ++ thread ∷ []

-- The loop over the lines, with the threads that are complete and the one that is being read.
unfoldable pub thread_lines :
    List Text → List ThreadInfo → Option ThreadInfo → Option (List ThreadInfo)
unfolding new_thread thread_line
thread_lines [] threads current = some (finished threads current)
thread_lines (line ∷ rest) threads current =
    if starts_with line (codes "\"")
    then thread_lines rest (finished threads current) (some (new_thread line))
    else elim current [
      | none ↦ thread_lines rest threads none
      | some thread ↦ elim (thread_line line thread) [
        | none ↦ none
        | some thread' ↦ thread_lines rest threads (some thread')
      ]
    ]

unfoldable pub parse_thread_dump : Text → Option (List ThreadInfo)
unfolding thread_lines
parse_thread_dump raw = thread_lines (lines raw) [] none
