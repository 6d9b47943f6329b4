-- ===== src/Lib.antt =====
-- OpenProfiler: a terminal profiler for JVMs, in Rust. The terminal program (crates/tui) discovers
-- processes, asks an agent inside the profiled JVM over a socket for its recordings (crates/core), and
-- shows tables of them; the native part of the agent (crates/jvmti-agent) counts probes, samples and
-- allocations.
--
-- How the program is modelled. The state of the application is the record App; every method of App in
-- crates/tui/src/app.rs is a function by clauses from App to App, under the method's name, with a
-- result in Option where the method can panic on an index (none is the panic). A background query is
-- its task with the values its closure captures, and an answer that is there or not; App.Tasks says what
-- its thread sends, given what the tools and sockets answer, and the steps of the terminal loop let any
-- result of the query's kind arrive at any time. Floats, their printing
-- and the case of letters are operations of the parameter Host; the clocks are the argument Now.
-- Texts are lists of character codes. Unsigned numbers are natural numbers, with saturation and
-- wrapping written out where the code saturates or wraps.
--
--   Base, Seq        helpers: Boolean tests, lists, integers, queues, texts, maps, stable sorting
--   Model            crates/core/src/model.rs
--   Format           crates/tui/src/format.rs
--   Jvm              crates/core/src/jvm.rs: Targets the processes, ThreadDump, Counters, Histogram and
--                    Recording what the tools print, Output how a tool ends
--   CallTree         crates/tui/src/call_tree.rs
--   App.State        crates/tui/src/app.rs: the state, and QueryResult and QueryHandle of jvm.rs
--   App.Rows, Sql    the tables as filter and expansion show them
--   App.Selection    the cursor
--   App.Session      actions and the queries they start
--   App.Results      poll_queries and apply_result
--   App.Update       auto_update, move_selection, select_current
--   App.Attach       the choice of port and instrumented package; Paths the agent's files, Discovery
--                    the search for a listening agent, Start attaching, waiting and commanding
--   App.Tasks        what the thread of a query does and sends
--   App.Flight       which answers a query may get, and the requests in flight
--   App.Invariant    what holds between operations, operation by operation
--   Event            crates/tui/src/event.rs; Event.Terminal: crates/tui/src/lib.rs
--   Once             crates/tui/src/lib.rs: the mode, and the modes that print one listing
--   Benchmark        crates/tui/src/benchmark.rs; Screen has its texts
--   Render           crates/tui/src/render.rs: the texts that are drawn
--   Reach            the terminal loop as steps: turns, keys and answers in any order
--   Agent            crates/jvmti-agent/src/lib.rs
--   Protocol         crates/core/src/protocol.rs and the messages
--   Tests            runs on concrete inputs
--
-- Bounds and fuel. allocation_depth makes at most 16 rounds in the code and here. The visible rows of
-- the allocation table recurse over parent ids, no deeper than there are rows; the code has no such
-- limit and overflows its stack on a circle of ids, where listed_rows is none. What reads the visible
-- rows (the cursor, the copy, the drawing and the answer to a memory query, all in the view of the
-- allocation hot spots) speaks of the code only where the listing ends. trim_end_text runs for at most the length of its
-- text, since every round drops a character. The decimal digits of n take at most n + 1 rounds.
-- The wait for an attached agent gets one round for every 250 ms of its timeout and two more, the
-- request for CPU data 17 rounds of 100 ms for its deadline of 1.5 s: enough where no round is shorter
-- than its sleep.
--
-- Not modelled: of drawing (crates/tui/src/render.rs), colours and places, the help, the
-- placeholders and the CPU call tree; of the benchmark's screen, all colours but those of the phases; running the JDK's tools, listing the ports of a process, sockets, JVMTI and JNI, the
-- operating system's timers, and the Java part of the agent.
pub mod Base
pub mod Seq
pub mod Model
pub mod Format
pub mod Jvm
pub mod CallTree
pub mod App
pub mod Event
pub mod Benchmark
pub mod Render
pub mod Once
pub mod Agent
pub mod Protocol
pub mod Reach
pub mod Tests
