-- ===== src/Jvm/Recording/Samples.antt =====
-- jvm.rs: what the scan of a listing of execution samples counts.
use oprofiler.Base.{
  ◌≡◌, List, [], ◌∷◌, ◌++◌, true, false, none, some, ℕ, ◌+◌, Option, All, refl, ap, sym, ◌∙◌, arith,
  length, append_assoc, Bool-cases, inl, inr, map, append-nil,
}
use oprofiler.Base.Text.{Text, codes, trim, text_eq, starts_with}
use oprofiler.Base.Maps.{lookup, insert}
use oprofiler.Model.Threads.{StackTraceElement, full_name}
use oprofiler.Jvm.ThreadDump.{parse_stack_trace_element}
use oprofiler.Jvm.Recording.{
  count_or, MethodCount, JfrScan, count_leaf, end_stack, within_event, scan_line, scan_lines,
  start_scan, total_samples,
}

-- An event as `jfr print` writes it: a head, fields, the stack from its top, and the two ends.
pub record PrintedEvent : Type 0 where
  pub head : Text
  pub fields : List Text
  pub opening : Text
  pub top : Text
  pub below : List Text
  pub closing : Text
  pub ending : Text
  pub leaf : StackTraceElement

abbrev pub event_lines : PrintedEvent → List Text
event_lines e =
    e.head ∷ (e.fields ++ (e.opening ∷ e.top ∷ (e.below ++ (e.closing ∷ e.ending ∷ []))))

abbrev pub listing : List PrintedEvent → List Text
listing [] = []
listing (e ∷ rest) = event_lines e ++ listing rest

-- A line that is none of the lines that the scan looks for, outside a stack and within one.
abbrev pub IsField : Text → Type 0
IsField line =
    (text_eq (trim line) (codes "jdk.ExecutionSample {") ≡ false)
    × ((starts_with (trim line) (codes "stackTrace = [") ≡ false)
        × (text_eq (trim line) (codes "}") ≡ false))

abbrev pub IsFrame : Text → Type 0
IsFrame line =
    (text_eq (trim line) (codes "jdk.ExecutionSample {") ≡ false)
    × ((starts_with (trim line) (codes "stackTrace = [") ≡ false)
        × (text_eq (trim line) (codes "]") ≡ false))

abbrev pub IsPrinted : PrintedEvent → Type 0
IsPrinted e =
    (text_eq (trim e.head) (codes "jdk.ExecutionSample {") ≡ true)
    × (All IsField e.fields
        × (((text_eq (trim e.opening) (codes "jdk.ExecutionSample {") ≡ false)
              × (starts_with (trim e.opening) (codes "stackTrace = [") ≡ true))
            × ((IsFrame e.top × (parse_stack_trace_element (trim e.top) ≡ some e.leaf))
                × (All IsFrame e.below
                    × (((text_eq (trim e.closing) (codes "jdk.ExecutionSample {") ≡ false)
                          × ((starts_with (trim e.closing) (codes "stackTrace = [") ≡ false)
                              × (text_eq (trim e.closing) (codes "]") ≡ true)))
                        × (text_eq (trim e.ending) (codes "jdk.ExecutionSample {") ≡ false))))))

-- The state between two events.
abbrev outside : List (Text × MethodCount) → JfrScan
outside counts = record { in_event = false; in_stack = false; stack_lines = []; counts = counts }

abbrev in_fields : List (Text × MethodCount) → JfrScan
in_fields counts = record { in_event = true; in_stack = false; stack_lines = []; counts = counts }

abbrev in_frames : List Text → List (Text × MethodCount) → JfrScan
in_frames stack counts = record {
  in_event = true;
  in_stack = true;
  stack_lines = stack;
  counts = counts;
}

abbrev samples_of : Option MethodCount → ℕ
samples_of none = 0
samples_of (some c) = c.samples

scan_line-head :
    (line : Text) (s : JfrScan)
    → text_eq (trim line) (codes "jdk.ExecutionSample {") ≡ true
    → scan_line line s ≡ some (record s { in_event = true; in_stack = false; stack_lines = [] })
unfolding scan_line
scan_line-head line s head = rw (head, scan_line) refl

scan_line-outside :
    (line : Text) (counts : List (Text × MethodCount))
    → text_eq (trim line) (codes "jdk.ExecutionSample {") ≡ false
    → scan_line line (outside counts) ≡ some (outside counts)
unfolding scan_line
scan_line-outside line counts no_head = rw (no_head, scan_line) refl

scan_line-opening :
    (line : Text) (counts : List (Text × MethodCount))
    → text_eq (trim line) (codes "jdk.ExecutionSample {") ≡ false
    → starts_with (trim line) (codes "stackTrace = [") ≡ true
    → scan_line line (in_fields counts) ≡ some (in_frames [] counts)
unfolding scan_line
scan_line-opening line counts no_head opening = rw (no_head, opening, scan_line) refl

scan_line-field :
    (line : Text) (counts : List (Text × MethodCount))
    → IsField line
    → scan_line line (in_fields counts) ≡ some (in_fields counts)
unfolding scan_line within_event
scan_line-field line counts (no_head, (no_stack, no_end)) =
    rw (no_head, no_stack, no_end, scan_line, within_event) refl

scan_line-frame :
    (line : Text) (stack : List Text) (counts : List (Text × MethodCount))
    → IsFrame line
    → scan_line line (in_frames stack counts) ≡ some (in_frames (stack ++ trim line ∷ []) counts)
unfolding scan_line within_event
scan_line-frame line stack counts (no_head, (no_stack, no_close)) =
    rw (no_head, no_stack, no_close, scan_line, within_event) refl

scan_line-closing :
    (line top : Text) (below : List Text) (leaf : StackTraceElement)
    (counts : List (Text × MethodCount))
    → text_eq (trim line) (codes "jdk.ExecutionSample {") ≡ false
    → starts_with (trim line) (codes "stackTrace = [") ≡ false
    → text_eq (trim line) (codes "]") ≡ true
    → parse_stack_trace_element top ≡ some leaf
    → scan_line line (in_frames (top ∷ below) counts) ≡ some (outside (count_leaf leaf counts))
unfolding scan_line end_stack
scan_line-closing line top below leaf counts no_head no_stack closing parsed =
    rw (no_head, no_stack, closing, parsed, scan_line, end_stack) refl

scan_lines-step :
    (line : Text) (rest : List Text) (s s' : JfrScan)
    → scan_line line s ≡ some s'
    → scan_lines (line ∷ rest) s ≡ scan_lines rest s'
unfolding scan_lines
scan_lines-step line rest s s' e = rw (e, scan_lines) refl

scan_fields :
    (fields later : List Text) (counts : List (Text × MethodCount))
    → All IsField fields
    → scan_lines (fields ++ later) (in_fields counts) ≡ scan_lines later (in_fields counts)
scan_fields [] later counts h = refl
scan_fields (line ∷ fields) later counts (here, h) =
    scan_lines-step line (fields ++ later) (in_fields counts) (in_fields counts)
      (scan_line-field line counts here)
    ∙ scan_fields fields later counts h

scan_frames :
    (frames later stack : List Text) (counts : List (Text × MethodCount))
    → All IsFrame frames
    → scan_lines (frames ++ later) (in_frames stack counts)
      ≡ scan_lines later (in_frames (stack ++ map trim frames) counts)
scan_frames [] later stack counts h =
    ap (λ lines. scan_lines later (in_frames lines counts)) (sym (append-nil stack))
scan_frames (line ∷ frames) later stack counts (here, h) =
    scan_lines-step line (frames ++ later) (in_frames stack counts)
      (in_frames (stack ++ trim line ∷ []) counts) (scan_line-frame line stack counts here)
    ∙ (scan_frames frames later (stack ++ trim line ∷ []) counts h
        ∙ ap (λ lines. scan_lines later (in_frames lines counts))
            (append_assoc stack (trim line ∷ []) (map trim frames)))

-- The lines behind an event's fields.
scan_stack :
    (e : PrintedEvent) (later : List Text) (counts : List (Text × MethodCount))
    → IsPrinted e
    → scan_lines
        (e.opening ∷ e.top ∷ (e.below ++ (e.closing ∷ e.ending ∷ later)))
        (in_fields counts)
      ≡ scan_lines later (outside (count_leaf e.leaf counts))
scan_stack e later counts
      (
        head,
        (
          fields,
          ((o_head, opening), ((top, leaf), (below, ((c_head, (c_open, closing)), ending)))),
        ),
      ) =
    let counted = count_leaf e.leaf counts in
    let tail = e.closing ∷ e.ending ∷ later in
    scan_lines-step e.opening (e.top ∷ (e.below ++ tail)) (in_fields counts) (in_frames [] counts)
      (scan_line-opening e.opening counts o_head opening)
    ∙ (scan_frames (e.top ∷ e.below) tail [] counts (top, below)
        ∙ (scan_lines-step e.closing (e.ending ∷ later)
              (in_frames (trim e.top ∷ map trim e.below) counts) (outside counted)
              (scan_line-closing e.closing (trim e.top) (map trim e.below) e.leaf counts c_head
                c_open closing leaf)
            ∙ scan_lines-step e.ending later (outside counted) (outside counted)
                (scan_line-outside e.ending counted ending)))

scan_event :
    (e : PrintedEvent) (later : List Text) (counts : List (Text × MethodCount))
    → IsPrinted e
    → scan_lines (event_lines e ++ later) (outside counts)
      ≡ scan_lines later (outside (count_leaf e.leaf counts))
scan_event e later counts printed =
    let stack = e.opening ∷ e.top ∷ (e.below ++ (e.closing ∷ e.ending ∷ [])) in
    let moved = append_assoc e.below (e.closing ∷ e.ending ∷ []) later in
    scan_lines-step e.head ((e.fields ++ stack) ++ later) (outside counts) (in_fields counts)
      (scan_line-head e.head (outside counts) printed.0)
    ∙ (ap (λ lines. scan_lines lines (in_fields counts)) (append_assoc e.fields stack later)
        ∙ (scan_fields e.fields (stack ++ later) counts printed.1.0
            ∙ (ap (λ lines. scan_lines (e.opening ∷ e.top ∷ lines) (in_fields counts)) moved
                ∙ scan_stack e later counts printed)))

-- The counts of a listing's events, by the methods at the tops of their stacks.
unfoldable pub count_all : List PrintedEvent → List (Text × MethodCount) → List (Text × MethodCount)
count_all [] counts = counts
count_all (e ∷ rest) counts = count_all rest (count_leaf e.leaf counts)

scan_listing :
    (events : List PrintedEvent) (counts : List (Text × MethodCount))
    → All IsPrinted events
    → scan_lines (listing events) (outside counts) ≡ some (outside (count_all events counts))
unfolding count_all scan_lines
scan_listing [] counts h = refl
scan_listing (e ∷ rest) counts (here, h) =
    scan_event e (listing rest) counts here ∙ scan_listing rest (count_leaf e.leaf counts) h

total_samples-nil : total_samples [] ≡ 0
unfolding total_samples
total_samples-nil = refl

total_samples-insert :
    (key : Text) (c : MethodCount) (counts : List (Text × MethodCount))
    → total_samples (insert text_eq key c counts) + samples_of (lookup text_eq key counts)
      ≡ total_samples counts + c.samples
unfolding total_samples insert lookup
total_samples-insert key c [] = omega arith
total_samples-insert key c ((k, d) ∷ rest) = elim (Bool-cases (text_eq k key)) [
  | inl e ↦ rw (e, insert, lookup) (omega arith)
  | inr e ↦
      rw (e, insert, lookup) (let later = total_samples-insert key c rest in omega (arith, later))
]

samples-count_or :
    (found : Option MethodCount) (fresh : MethodCount)
    → fresh.samples ≡ 0
    → (count_or found fresh).samples ≡ samples_of found
samples-count_or none fresh none_yet = none_yet
samples-count_or (some c) fresh none_yet = refl

-- A sample more is counted for an event, whatever has been counted before.
total_samples-count_leaf :
    (leaf : StackTraceElement) (counts : List (Text × MethodCount))
    → total_samples (count_leaf leaf counts) ≡ total_samples counts + 1
unfolding count_leaf
total_samples-count_leaf leaf counts =
    let key = full_name leaf in
    let fresh : MethodCount = record {
      samples = 0;
      invocations = 0;
      class_name = leaf.class_name;
      method_name = leaf.method_name;
    } in
    let entry = count_or (lookup text_eq key counts) fresh in
    let inserted =
      total_samples-insert key
        (record entry { samples = entry.samples + 1; invocations = entry.invocations + 1 })
        counts in
    omega (arith, inserted, samples-count_or (lookup text_eq key counts) fresh refl)

total_samples-count_all :
    (events : List PrintedEvent) (counts : List (Text × MethodCount))
    → total_samples (count_all events counts) ≡ total_samples counts + length events
unfolding count_all
total_samples-count_all [] counts = omega arith
total_samples-count_all (e ∷ rest) counts = omega (
  arith,
  total_samples-count_all rest (count_leaf e.leaf counts),
  total_samples-count_leaf e.leaf counts,
)

-- The scan of a well-formed listing of execution samples never fails: it counts the methods at the tops
-- of the stacks one by one, and the counts add up to the number of the events.
pub scan_lines-listing :
    (events : List PrintedEvent)
    → All IsPrinted events
    → (s : JfrScan) × ((scan_lines (listing events) start_scan ≡ some s)
        × ((s.counts ≡ count_all events []) × (total_samples s.counts ≡ length events)))
unfolding start_scan
scan_lines-listing events h = (
  outside (count_all events []),
  (
    scan_listing events [] h,
    (
      refl,
      let counted = total_samples-count_all events [] in omega (arith, counted, total_samples-nil),
    ),
  ),
)
