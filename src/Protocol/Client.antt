-- ===== src/Protocol/Client.antt =====
-- protocol.rs: the commands of `AgentClient`. prost's encoding is an argument, and so is what the
-- operating system answers to the writes and how the response arrives.
pub mod Recording
use oprofiler.Base.{
  [], ◌++◌, Option, none, some, ◌⊎◌, inl, inr, if◌then◌else◌, Result, done, failed, ◌>>=◌,
}
use oprofiler.Base.Text.{Text, codes, to_decimal}
use oprofiler.Protocol.Messages.{
  Command, ProfilingData, DataPayload, CpuData, MemoryData, cpu_data, memory_data, thread_data,
  heartbeat, start_cpu_payload, get_cpu_payload, command_code, mode_code, get_cpu_data,
  get_memory_data, start_cpu, stop_cpu, instrumentation,
}
use oprofiler.Protocol.Frames.{
  Bytes, IoError, is_timeout_error, ReadMessageError, io, decode_error, too_large, frame, Incoming,
  read_payload, after_failure,
}

-- prost: the bytes of a command, and the data in the bytes of a response or why there is none.
pub record Codec (F : Type 0) : Type 0 where
  pub encode : Command → Bytes
  pub decode : Bytes → ProfilingData F ⊎ Text
  -- The texts of the errors.
  pub io_text : IoError → Text

-- A connection: the error that the next write meets, if any; what was written; what comes in.
pub record Connection : Type 0 where
  pub write_fails : Option IoError
  pub written : Bytes
  pub incoming : Incoming

abbrev cpu_answer : {F : Type 0} → Option (DataPayload F) → Result (CpuData F)
cpu_answer (some (cpu_data cpu)) = done cpu
cpu_answer (some (memory_data m)) = failed (codes "Unexpected response type")
cpu_answer (some thread_data) = failed (codes "Unexpected response type")
cpu_answer (some (heartbeat h)) = failed (codes "Unexpected response type")
cpu_answer none = failed (codes "Unexpected response type")

abbrev memory_answer : {F : Type 0} → Option (DataPayload F) → Result MemoryData
memory_answer (some (memory_data m)) = done m
memory_answer (some (cpu_data cpu)) = failed (codes "Unexpected response type")
memory_answer (some thread_data) = failed (codes "Unexpected response type")
memory_answer (some (heartbeat h)) = failed (codes "Unexpected response type")
memory_answer none = failed (codes "Unexpected response type")

unfoldable pub get_cpu_command : Command
unfolding command_code
get_cpu_command = record {
  command_type = command_code get_cpu_data;
  session_id = [];
  payload = some (get_cpu_payload []);
}

unfoldable pub get_memory_command : Command
unfolding command_code
get_memory_command = record {
  command_type = command_code get_memory_data;
  session_id = [];
  payload = none;
}

unfoldable pub start_command : Command
unfolding command_code mode_code
start_command = record {
  command_type = command_code start_cpu;
  session_id = [];
  payload = some (start_cpu_payload (mode_code instrumentation) 10);
}

unfoldable pub stop_command : Command
unfolding command_code
stop_command = record { command_type = command_code stop_cpu; session_id = []; payload = none }

module _ {F : Type 0} (codec : Codec F) where
  unfoldable pub error_text : ReadMessageError → Text
  error_text (io e) = codec.io_text e
  error_text (decode_error t) = t
  error_text (too_large len) = codes "Message too large: " ++ to_decimal len

  -- A failed write leaves the connection as it was, as far as the client looks at it.
  unfoldable pub write_message : Command → Connection → Option IoError × Connection
  write_message cmd c = elim c.write_fails [
    | some e ↦ (some e, c)
    | none ↦ (none, record c { written = c.written ++ frame (codec.encode cmd) })
  ]

  unfoldable pub decode_payload : Bytes → ProfilingData F ⊎ ReadMessageError
  decode_payload bytes = elim (codec.decode bytes) [ inl d ↦ inl d | inr t ↦ inr (decode_error t) ]

  unfoldable pub read_message : Connection → (ProfilingData F ⊎ ReadMessageError) × Connection
  unfolding decode_payload
  read_message c = elim (read_payload c.incoming) [
    | inr e ↦ (inr e, record c { incoming = after_failure c.incoming })
    | inl (bytes, rest) ↦ (decode_payload bytes, record c { incoming = rest })
  ]

  abbrev read_result : ProfilingData F ⊎ ReadMessageError → Result (ProfilingData F)
  read_result (inl d) = done d
  read_result (inr e) = failed (codes "Read failed: " ++ error_text e)

  unfoldable pub send_command : Command → Connection → Result (ProfilingData F) × Connection
  unfolding write_message read_message error_text
  send_command cmd c =
      let (problem, sent) = write_message cmd c in
      let (answer, after) = read_message sent in
      elim problem [
        | some e ↦ (failed (codes "Write failed: " ++ codec.io_text e), sent)
        | none ↦ (read_result answer, after)
      ]

  abbrev forgiving_result : ProfilingData F ⊎ ReadMessageError → Result (Unit {0})
  forgiving_result (inl d) = done tt
  forgiving_result (inr (io e)) =
      if is_timeout_error e then done tt else failed (codes "Read failed: " ++ error_text (io e))
  forgiving_result (inr (decode_error t)) =
      failed (codes "Read failed: " ++ error_text (decode_error t))
  forgiving_result (inr (too_large len)) =
      failed (codes "Read failed: " ++ error_text (too_large len))

  unfoldable pub send_command_allow_response_timeout :
      Command → Connection → Result (Unit {0}) × Connection
  unfolding write_message read_message error_text
  send_command_allow_response_timeout cmd c =
      let (problem, sent) = write_message cmd c in
      let (answer, after) = read_message sent in
      elim problem [
        | some e ↦ (failed (codes "Write failed: " ++ codec.io_text e), sent)
        | none ↦ (forgiving_result answer, after)
      ]

  unfoldable pub client_get_cpu_data : Connection → Result (CpuData F) × Connection
  unfolding send_command get_cpu_command
  client_get_cpu_data c =
      let (answer, after) = send_command get_cpu_command c in
      (answer >>= λ d. cpu_answer d.payload, after)

  unfoldable pub client_get_memory_data : Connection → Result MemoryData × Connection
  unfolding send_command get_memory_command
  client_get_memory_data c =
      let (answer, after) = send_command get_memory_command c in
      (answer >>= λ d. memory_answer d.payload, after)

  unfoldable pub start_cpu_recording : Connection → Result (Unit {0}) × Connection
  unfolding send_command start_command
  start_cpu_recording c =
      let (answer, after) = send_command start_command c in (answer >>= λ _. done tt, after)

  unfoldable pub start_cpu_recording_fast : Connection → Result (Unit {0}) × Connection
  unfolding send_command_allow_response_timeout start_command
  start_cpu_recording_fast c = send_command_allow_response_timeout start_command c

  unfoldable pub stop_cpu_recording : Connection → Result (Unit {0}) × Connection
  unfolding send_command stop_command
  stop_cpu_recording c =
      let (answer, after) = send_command stop_command c in (answer >>= λ _. done tt, after)

  unfoldable pub stop_cpu_recording_fast : Connection → Result (Unit {0}) × Connection
  unfolding send_command_allow_response_timeout stop_command
  stop_cpu_recording_fast c = send_command_allow_response_timeout stop_command c
