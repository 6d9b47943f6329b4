-- ===== src/Protocol/Client/Recording.antt =====
-- protocol.rs: starting and stopping a recording, with and without waiting for the agent.
use oprofiler.Base.{◌≡◌, true, none, inr, Result, done, failed, arith, ◌++◌}
use oprofiler.Protocol.Frames.{IoError, is_timeout_error, io, frame}
use oprofiler.Protocol.Client.{
  Codec, Connection, write_message, read_message, send_command, send_command_allow_response_timeout,
  start_command, start_cpu_recording, start_cpu_recording_fast,
}

abbrev pub IsDone : {A : Type 0} → Result A → Type 0
IsDone (done a) = Unit {0}
IsDone (failed t) = ⊥

-- Starting a recording without waiting succeeds where starting it with waiting does, and sends the
-- same bytes; where the answer does not come in time, only the first of the two succeeds.
pub start_cpu_recording_fast-start_cpu_recording :
    {F : Type 0} (codec : Codec F) (c : Connection)
    → c.write_fails ≡ none
    → ((start_cpu_recording_fast codec c).1.written
        ≡ c.written ++ frame (codec.encode start_command))
      × ((start_cpu_recording codec c).1 ≡ (start_cpu_recording_fast codec c).1)
      × (IsDone (start_cpu_recording codec c).0 → IsDone (start_cpu_recording_fast codec c).0)
      × ((e : IoError)
          → is_timeout_error e ≡ true
          → (read_message codec (write_message codec start_command c).1).0 ≡ inr (io e)
          → IsDone (start_cpu_recording_fast codec c).0 × ¬ IsDone (start_cpu_recording codec c).0)
unfolding start_cpu_recording start_cpu_recording_fast send_command
    send_command_allow_response_timeout write_message read_message
start_cpu_recording_fast-start_cpu_recording codec c ready = ground arith
