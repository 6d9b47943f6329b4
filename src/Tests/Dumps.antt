-- ===== src/Tests/Dumps.antt =====
-- A thread dump of one thread with one frame.
use oprofiler.Base.{◌++◌, ◌∷◌, All, arith}
use oprofiler.Base.Text.{Text, codes, lines, trim, strip_prefix, rfind_char}
use oprofiler.Jvm.ThreadDump.{parse_thread_dump, parse_stack_trace_element}
use oprofiler.Jvm.ThreadDump.Frames.{
  HasParensInOrder, ParsesMatched, parse_thread_dump-ParsesMatched,
}

abbrev pub dump : Text
dump =
    codes "\"main\" nid=0x1"
    ++ (10 ∷ (codes "   java.lang.Thread.State: RUNNABLE" ++ (10 ∷ codes "  at a.B.c(B.java:3)")))

pub dump-HasParensInOrder : All HasParensInOrder (lines dump)
unfolding lines trim strip_prefix parse_stack_trace_element rfind_char
dump-HasParensInOrder = (tt, (tt, (omega arith, tt)))

parse_thread_dump-ParsesMatched_example : ParsesMatched (parse_thread_dump dump)
parse_thread_dump-ParsesMatched_example = parse_thread_dump-ParsesMatched dump dump-HasParensInOrder
