-- ===== src/Model/Rows.antt =====
-- model.rs: the JVM targets, the log and the rows of the memory, CPU and database tables.
use oprofiler.Base.{ℕ, Bool, ℤ, List, Option}
use oprofiler.Base.Text.{Text}

pub record JvmTarget : Type 0 where
  pub pid : ℕ
  pub display_name : Text
  pub main_class : Text
  pub arguments : Text
  pub profiled : Bool

pub data LogLevel : Type 0 where
  info ok warn error : LogLevel

pub record OperationLog : Type 0 where
  pub at : Text
  pub level : LogLevel
  pub action : Text
  pub message : Text

pub record TelemetrySample (F : Type 0) : Type 0 where
  pub elapsed_secs : F
  pub heap_used_mb : F
  pub heap_committed_mb : F
  pub process_mb : F
  pub private_mb : F
  pub cpu_percent : F
  pub thread_count : F
  pub handle_count : F
  pub class_count : F
  pub gc_count : F
  pub gc_time_ms : F

pub record ProcessSnapshot (F : Type 0) : Type 0 where
  pub cpu_seconds : F
  pub working_set_mb : F
  pub private_mb : F
  pub thread_count : ℕ
  pub handle_count : ℕ

pub record HeapSnapshot (F : Type 0) : Type 0 where
  pub used_mb : F
  pub committed_mb : F

pub record GcSnapshot : Type 0 where
  pub count : ℕ
  pub time_ms : ℕ

pub record MemoryClassRow : Type 0 where
  pub rank : ℕ
  pub name : Text
  pub instances : ℕ
  pub bytes : ℕ
  pub delta_instances : ℤ
  pub delta_bytes : ℤ

pub record AllocationHotSpotRow : Type 0 where
  pub node_id : ℤ
  pub parent_id : Option ℤ
  pub depth : ℕ
  pub name : Text
  pub allocated_type : Text
  pub bytes : ℕ
  pub allocations : ℕ

pub record LiveMemorySnapshot : Type 0 where
  pub rows : List MemoryClassRow
  pub allocation_hotspots : List AllocationHotSpotRow

pub record HeapSnapshotInfo : Type 0 where
  pub id : ℕ
  pub created_at : Text
  pub path : Option Text
  pub classes : List MemoryClassRow
  pub total_instances : ℕ
  pub total_bytes : ℕ

pub record CpuMethodRow (F : Type 0) : Type 0 where
  pub method_id : Option ℤ
  pub method : Text
  pub total_samples : ℕ
  pub self_samples : ℕ
  pub total_ms : F
  pub self_ms : F
  pub percent : F
  pub class_name : Text
  pub method_name : Text
  pub descriptor : Text
  pub invocations : ℕ
  pub average_nanos : F

pub record CpuMethodEdgeRow : Type 0 where
  pub from_method_id : ℤ
  pub to_method_id : ℤ
  pub call_count : ℕ
  pub total_duration_nano : ℕ

pub record DatabaseEvent (F : Type 0) : Type 0 where
  pub at : Text
  pub probe : Text
  pub operation : Text
  pub duration_ms : Option F
  pub status : Text
  pub message : Text
