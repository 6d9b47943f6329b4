-- ===== src/Reach.antt =====
-- crates/tui/src/lib.rs: the runs of the terminal loop as sequences of steps. A step is a turn's
-- refresh, a key, or the arrival of a background thread's answer, in any order.
pub mod Safety
use oprofiler.Base.{
  ℕ, ◌+◌, ◌≤◌, ◌<◌, ◌≡◌, Bool, true, false, List, [], ◌∷◌, ◌++◌, Option, none, some, arith, All,
  Result, length, as_num, sym, subst,
}
use oprofiler.Seq.{All-append}
use oprofiler.Base.Text.{Text}
use oprofiler.Model.Floats.{Host}
use oprofiler.App.State.{App, Now, QueryResult, QueryHandle, new}
use oprofiler.App.Session.{set_agent_port, spawn_refresh_jvms}
use oprofiler.App.Flight.{
  Answers, Answers-Sent, IsHonest, IsQuiet, Sent, starts, stops, task_starts, task_stops,
}
use oprofiler.App.Invariant.{IsValid, new-IsValid}
use oprofiler.App.Invariant.Actions.{set_agent_port-IsValid, spawn_refresh_jvms-IsValid}
use oprofiler.App.Invariant.Polled.{poll_queries-IsValid}
use oprofiler.App.Invariant.Turn.{auto_update-IsValid, handle_key-Handles, Handles}
use oprofiler.Event.{KeyEvent, handle_key}
use oprofiler.Event.Terminal.{Terminal, KeyDebounce, refresh_turn, key_turn, should_accept}

-- The loop's state after the start of the program, with the port given on the command line if any.
unfoldable pub start_terminal : {F : Type 0} → Host F → Now → Option ℕ → Terminal F
start_terminal host now none = record {
  app = spawn_refresh_jvms (new host now);
  debounce = record { last = none };
  running = true;
}
start_terminal host now (some port) = record {
  app = spawn_refresh_jvms (set_agent_port port (new host now));
  debounce = record { last = none };
  running = true;
}

-- A query before and after its answer has arrived.
pub data Arrives {F : Type 0} : QueryHandle F → QueryHandle F → Type 0 where
  arrives :
      (h : QueryHandle F) (r : QueryResult F)
      → h.rx ≡ none
      → Answers h.task r
      → Arrives h (record h { rx = some r })

-- The application before and after an answer's arrival in one of its slots or pending queries.
pub data Delivers {F : Type 0} (app : App F) : App F → Type 0 where
  to_jvms :
      (h h' : QueryHandle F)
      → app.jvms_query ≡ some h
      → Arrives h h'
      → Delivers app (record app { jvms_query = some h' })
  to_telemetry :
      (h h' : QueryHandle F)
      → app.telemetry_query ≡ some h
      → Arrives h h'
      → Delivers app (record app { telemetry_query = some h' })
  to_memory :
      (h h' : QueryHandle F)
      → app.memory_query ≡ some h
      → Arrives h h'
      → Delivers app (record app { memory_query = some h' })
  to_thread :
      (h h' : QueryHandle F)
      → app.thread_query ≡ some h
      → Arrives h h'
      → Delivers app (record app { thread_query = some h' })
  to_pending :
      (before after : List (QueryHandle F)) (h h' : QueryHandle F)
      → app.pending_queries ≡ before ++ h ∷ after
      → Arrives h h'
      → Delivers app (record app { pending_queries = before ++ h' ∷ after })

-- The loop takes turns and keys only until it ends; a background thread may answer at any time.
pub data Step {F : Type 0} (host : Host F) (t : Terminal F) : Terminal F → Type 0 where
  turn : (now : Now) → t.running ≡ true → Step host t (refresh_turn host now t)
  key :
      (now : Now) (copied : Text → Result (Unit {0})) (event : KeyEvent) (t' : Terminal F)
      → t.running ≡ true
      → key_turn host now copied event t ≡ some t'
      → Step host t t'
  answer : (app' : App F) → Delivers t.app app' → Step host t (record t { app = app' })

pub data Reach {F : Type 0} (host : Host F) : Terminal F → Type 0 where
  started : (now : Now) (port : Option ℕ) → Reach host (start_terminal host now port)
  after : (t t' : Terminal F) → Reach host t → Step host t t' → Reach host t'
