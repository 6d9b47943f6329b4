-- ===== src/App/State.antt =====
-- app.rs: the application's state, and jvm.rs: the queries that run in background threads.
use oprofiler.Base.{
  ℕ, ◌+◌, ◌-◌, ◌*◌, Bool, false, ℤ, List, [], ◌∷◌, Option, none, some, Result, length, get_or,
  as_num, find_first, keep_newest_front, min, ◌==◌,
}
use oprofiler.Base.Text.{Text, codes}
use oprofiler.Model.Floats.{Host}
use oprofiler.Model.Views.{
  Category, ViewId, categories, telemetries, cpu_views, live_memory, databases, start_center,
}
use oprofiler.Model.Rows.{
  JvmTarget, LogLevel, OperationLog, TelemetrySample, ProcessSnapshot, HeapSnapshot, GcSnapshot,
  MemoryClassRow, AllocationHotSpotRow, LiveMemorySnapshot, HeapSnapshotInfo, CpuMethodRow,
  CpuMethodEdgeRow, DatabaseEvent,
}
use oprofiler.Model.Threads.{ThreadDump, ThreadSummary, StackSample}
use oprofiler.Model.Tree.{CallTree}

-- A reading of the clocks: `Instant::now()` in nanoseconds, and the local time as the log prints it.
-- All readings that one operation makes are taken to be the same.
pub record Now : Type 0 where
  pub instant : ℕ
  pub stamp : Text

-- `QueryResult`.
pub data QueryResult (F : Type 0) : Type 0 where
  jvms : List JvmTarget → QueryResult F
  jvms_error : Text → QueryResult F
  telemetry :
      Option (ProcessSnapshot F)
      → Option (HeapSnapshot F)
      → Option GcSnapshot
      → F
      → Option F
      → QueryResult F
  live_memory_rows : Result LiveMemorySnapshot → QueryResult F
  cpu_sample : Result ThreadDump → Text → QueryResult F
  cpu_instrumentation : Result (List (CpuMethodRow F) × List CpuMethodEdgeRow) → QueryResult F
  thread_dump : Result ThreadDump → QueryResult F
  heap_snapshot : Bool → Text → Option Text → ℕ → QueryResult F
  cpu_recording : Bool → Text → Text → ℕ → ℕ → QueryResult F
  gc : Bool → Text → ℕ → QueryResult F

-- What the closure of a spawned query does, with what it has captured.
pub data Task (F : Type 0) : Type 0 where
  refresh_jvms : Task F
  refresh_telemetry : ℕ → F → Task F
  refresh_live_memory : ℕ → List (Text × (ℕ × ℕ)) → ℕ → Task F
  sample_cpu : ℕ → Text → Task F
  capture_thread_dump : ℕ → Task F
  fetch_cpu_instrumentation : ℕ → Task F
  start_recording : ℕ → ℕ → Text → Option Text → Task F
  stop_recording : ℕ → Task F
  gc_run : ℕ → Task F

-- The receiving end of a query's channel: what has been sent and not been received.
pub record QueryHandle (F : Type 0) : Type 0 where
  pub task : Task F
  pub rx : Option (QueryResult F)

pub data FocusPane : Type 0 where
  sidebar main : FocusPane

pub data InputMode : Type 0 where
  normal filter : InputMode

abbrev pub default_page_rows : ℕ
default_page_rows = 20

abbrev pub max_thread_dumps : ℕ
max_thread_dumps = 20

pub record TelemetryState (F : Type 0) : Type 0 where
  pub samples : List (TelemetrySample F)
  pub last_process_cpu : Option (F × ℕ)

abbrev pub Histogram : Type 0
Histogram = List (Text × (ℕ × ℕ))

pub record MemoryState : Type 0 where
  pub rows : List MemoryClassRow
  pub allocation_hotspots : List AllocationHotSpotRow
  pub frozen : Bool
  pub recording : Bool
  pub previous_histogram : Histogram
  pub marked_heap : Option Histogram
  pub selected_row_idx : ℕ
  pub sort_column : ℕ
  pub sort_asc : Bool
  pub loaded_once : Bool
  pub expanded_hotspots : List ℤ
  pub row_offset : ℕ

pub record CpuState (F : Type 0) : Type 0 where
  pub recording : Bool
  pub thread_status : Text
  pub aggregation : Text
  pub samples : List (StackSample F)
  pub methods : List (CpuMethodRow F)
  pub method_edges : List CpuMethodEdgeRow
  pub expanded_hotspots : List ℤ
  pub selected_hotspot_idx : ℕ
  pub row_offset : ℕ
  pub call_tree : CallTree F
  pub sort_column : ℕ
  pub sort_asc : Bool
  pub sampling_interval_ms : F
  pub agent_port : ℕ

pub record ThreadState (F : Type 0) : Type 0 where
  pub dumps : List ThreadDump
  pub selected_dump : Option ℕ
  pub history : List (ThreadSummary F)

pub record DatabaseState (F : Type 0) : Type 0 where
  pub recording : Bool
  pub events : List (DatabaseEvent F)
  pub selected_row_idx : ℕ
  pub row_offset : ℕ

pub record App (F : Type 0) : Type 0 where
  pub selected_view : ViewId
  pub expanded : List Category
  pub selected_category_idx : ℕ
  pub selected_item_idx : ℕ
  pub list_offset : ℕ
  pub jvm_targets : List JvmTarget
  pub selected_pid : Option ℕ
  pub agent_port : ℕ
  pub agent_enabled : Bool
  pub session_started_at : ℕ
  pub last_tick : ℕ
  pub last_thread_refresh : ℕ
  pub auto_update_secs : ℕ
  pub logs : List OperationLog
  pub input_mode : InputMode
  pub focus_pane : FocusPane
  pub filter_input : Text
  pub telemetry_state : TelemetryState F
  pub memory : MemoryState
  pub cpu : CpuState F
  pub threads : ThreadState F
  pub database : DatabaseState F
  pub heap_snapshots : List HeapSnapshotInfo
  pub heap_selected_snapshot : Option ℕ
  pub telemetry_query : Option (QueryHandle F)
  pub memory_query : Option (QueryHandle F)
  pub thread_query : Option (QueryHandle F)
  pub jvms_query : Option (QueryHandle F)
  pub pending_queries : List (QueryHandle F)
  pub show_help : Bool
  pub pending_initial_cpu_start : Bool
  pub cpu_recording_start_pending : Bool
  pub cpu_recording_stop_pending : Bool

abbrev pub second : ℕ
second = 1_000_000_000

module _ {F : Type 0} where
  -- `QueryHandle::spawn`: nothing has been sent when the thread starts.
  unfoldable pub spawn : Task F → QueryHandle F
  spawn t = record { task = t; rx = none }

  -- `QueryHandle::poll`.
  unfoldable pub poll : QueryHandle F → Option (QueryResult F)
  poll h = h.rx

  unfoldable pub new : Host F → Now → App F
  new host now = record {
    selected_view = start_center;
    expanded = telemetries ∷ live_memory ∷ cpu_views ∷ databases ∷ [];
    selected_category_idx = 0;
    selected_item_idx = 0;
    list_offset = 0;
    jvm_targets = [];
    selected_pid = none;
    agent_port = 8849;
    agent_enabled = false;
    session_started_at = now.instant;
    last_tick = now.instant - 60 * second;
    last_thread_refresh = now.instant - 60 * second;
    auto_update_secs = 2;
    logs = [];
    input_mode = normal;
    focus_pane = sidebar;
    filter_input = [];
    telemetry_state = record { samples = []; last_process_cpu = none };
    memory = record {
      rows = [];
      allocation_hotspots = [];
      frozen = false;
      recording = false;
      previous_histogram = [];
      marked_heap = none;
      selected_row_idx = 0;
      sort_column = 1;
      sort_asc = false;
      loaded_once = false;
      expanded_hotspots = [];
      row_offset = 0;
    };
    cpu = record {
      recording = false;
      thread_status = codes "Runnable";
      aggregation = codes "Methods";
      samples = [];
      methods = [];
      method_edges = [];
      expanded_hotspots = [];
      selected_hotspot_idx = 0;
      row_offset = 0;
      call_tree = record { nodes = []; edges = [] };
      sort_column = 1;
      sort_asc = false;
      sampling_interval_ms = host.of_nat 10;
      agent_port = 8849;
    };
    threads = record { dumps = []; selected_dump = none; history = [] };
    database = record { recording = false; events = []; selected_row_idx = 0; row_offset = 0 };
    heap_snapshots = [];
    heap_selected_snapshot = none;
    telemetry_query = none;
    memory_query = none;
    thread_query = none;
    jvms_query = none;
    pending_queries = [];
    show_help = false;
    pending_initial_cpu_start = false;
    cpu_recording_start_pending = false;
    cpu_recording_stop_pending = false;
  }

  unfoldable pub elapsed_secs : Host F → Now → App F → F
  elapsed_secs host now app = host.as_secs (now.instant - app.session_started_at)

  -- The newest entry is in front, and at most 100 are kept.
  unfoldable pub push_log : Now → LogLevel → Text → Text → App F → App F
  push_log now level action message app = record app {
    logs =
        keep_newest_front 100
          (record { at = now.stamp; level = level; action = action; message = message } ∷ app.logs);
  }

  unfoldable pub active_recording_count : App F → ℕ
  active_recording_count app =
      as_num app.cpu.recording + as_num app.memory.recording + as_num app.database.recording

  unfoldable pub selected_target : App F → Option JvmTarget
  selected_target app = elim app.selected_pid [
    | none ↦ none
    | some pid ↦ find_first (λ target. target.pid == pid) app.jvm_targets
  ]

  -- The views at an index that is cut to the last category.
  unfoldable pub current_category_views : App F → List ViewId
  current_category_views app =
      (get_or categories (min app.selected_category_idx (length categories - 1))
        (record { category = databases; title = []; views = [] })).views
