-- ===== src/Protocol/Messages.antt =====
-- proto/com.openprofiler.protocol.rs: the messages that the client sends and reads.
use oprofiler.Base.{ℕ, ℤ, List, Option}
use oprofiler.Base.Text.{Text}

pub data CommandType : Type 0 where
  unknown_command start_cpu start_alloc stop_cpu stop_alloc save_snapshot : CommandType
  get_cpu_data get_memory_data get_thread_data set_sampling_interval set_thread_filter : CommandType

-- The values of the enumeration on the wire.
unfoldable pub command_code : CommandType → ℕ
command_code unknown_command = 0
command_code start_cpu = 1
command_code stop_cpu = 2
command_code start_alloc = 3
command_code stop_alloc = 4
command_code save_snapshot = 5
command_code get_cpu_data = 6
command_code get_memory_data = 7
command_code get_thread_data = 8
command_code set_sampling_interval = 9
command_code set_thread_filter = 10

pub data CpuMode : Type 0 where
  sampling instrumentation : CpuMode

unfoldable pub mode_code : CpuMode → ℕ
mode_code sampling = 0
mode_code instrumentation = 1

pub data CommandPayload : Type 0 where
  -- The mode and the sampling interval.
  start_cpu_payload : ℕ → ℕ → CommandPayload
  save_snapshot_payload : Text → CommandPayload
  get_cpu_payload : Text → CommandPayload
  set_interval_payload : ℕ → CommandPayload
  set_filter_payload : Text → Text → CommandPayload

pub record Command : Type 0 where
  pub command_type : ℕ
  pub session_id : Text
  pub payload : Option CommandPayload

pub record HotSpot (F : Type 0) : Type 0 where
  pub class_name : Text
  pub method_name : Text
  pub method_descriptor : Text
  pub self_samples : ℕ
  pub total_samples : ℕ
  pub self_duration_nano : ℕ
  pub total_duration_nano : ℕ
  pub percent : F
  pub invocations : ℕ

pub record MethodNode : Type 0 where
  pub id : ℤ
  pub class_name : Text
  pub method_name : Text
  pub method_descriptor : Text
  pub execution_count : ℕ
  pub total_duration_nano : ℕ
  pub self_duration_nano : ℕ

pub record MethodEdge : Type 0 where
  pub from_node_id : ℤ
  pub to_node_id : ℤ
  pub call_count : ℕ
  pub total_duration_nano : ℕ

pub record MethodGraph : Type 0 where
  pub nodes : List MethodNode
  pub edges : List MethodEdge

pub record CallTreeNode : Type 0 where
  pub id : ℤ
  pub parent_id : ℤ
  pub class_name : Text
  pub method_name : Text
  pub method_descriptor : Text
  pub file_name : Text
  pub line_number : ℤ
  pub self_duration_nano : ℕ
  pub total_duration_nano : ℕ
  pub call_count : ℕ
  pub children : List ℤ

pub record CpuData (F : Type 0) : Type 0 where
  pub total_sample_count : ℕ
  pub sampling_interval_ms : ℕ
  pub method_graph : Option MethodGraph
  pub call_tree : Option (List CallTreeNode)
  pub hot_spots : List (HotSpot F)

pub record AllocationTreeNode : Type 0 where
  pub id : ℤ
  pub parent_id : ℤ
  pub class_name : Text
  pub method_name : Text
  pub method_descriptor : Text
  pub file_name : Text
  pub line_number : ℤ
  pub allocated_type : Text
  pub allocated_size : ℕ
  pub instance_count : ℕ

pub record HeapObjectInfo : Type 0 where
  pub object_id : ℕ
  pub class_name : Text
  pub size : ℕ
  pub references_to : List ℕ
  pub references_from : List ℕ

pub record MemoryData : Type 0 where
  pub allocation_tree : Option (List AllocationTreeNode)
  pub heap_object_infos : List HeapObjectInfo
  pub heap_used_bytes : ℕ
  pub heap_committed_bytes : ℕ

pub record HeartbeatData : Type 0 where
  pub uptime_nano : ℕ
  pub active_recordings : ℕ

-- Thread data is decoded and never looked into.
pub data DataPayload (F : Type 0) : Type 0 where
  cpu_data : CpuData F → DataPayload F
  memory_data : MemoryData → DataPayload F
  thread_data : DataPayload F
  heartbeat : HeartbeatData → DataPayload F

pub record ProfilingData (F : Type 0) : Type 0 where
  pub data_type : ℕ
  pub timestamp_nano : ℕ
  pub payload : Option (DataPayload F)
