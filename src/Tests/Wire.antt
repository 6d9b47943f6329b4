-- ===== src/Tests/Wire.antt =====
-- Messages on the wire and the agent's commands.
use oprofiler.Base.{
  zero, suc, ℕ, ℤ, pos, negsuc, ◌≡◌, ◌≤◌, ◌++◌, refl, [], ◌∷◌, none, length, true, inl, inr, List,
  arith, min,
}
use oprofiler.Base.Text.{codes}
use oprofiler.Protocol.Messages.{AllocationTreeNode}
use oprofiler.Protocol.Frames.{
  Bytes, IoError, timed_out, is_timeout_error, io, too_large, frame, read_payload,
}
use oprofiler.Protocol.Frames.Roundtrip.{read_payload-frame, read_payload-too_large}
use oprofiler.Protocol.Client.{
  Codec, Connection, write_message, read_message, start_command, start_cpu_recording,
  start_cpu_recording_fast,
}
use oprofiler.Protocol.Client.Recording.{IsDone, start_cpu_recording_fast-start_cpu_recording}
use oprofiler.Protocol.Rows.{allocation_depth}
use oprofiler.Protocol.Rows.Depth.{Chain, allocation_depth-Chain}

read_payload-frame_example :
    read_payload (record { arrived = frame (1 ∷ 2 ∷ 3 ∷ []) ++ 9 ∷ []; stop = timed_out })
    ≡ inl (1 ∷ 2 ∷ 3 ∷ [], record { arrived = 9 ∷ []; stop = timed_out })
read_payload-frame_example = read_payload-frame (1 ∷ 2 ∷ 3 ∷ []) (9 ∷ []) timed_out (omega arith)

unfoldable zeros : ℕ → Bytes
zeros zero = []
zeros (suc n) = 0 ∷ zeros n

length-zeros : (n : ℕ) → length (zeros n) ≡ n
unfolding zeros
length-zeros zero = refl
length-zeros (suc n) = omega (arith, length-zeros n)

read_payload-too_large_example :
    read_payload (record { arrived = frame (zeros 50_000_001) ++ []; stop = timed_out })
    ≡ inr (too_large (length (zeros 50_000_001)))
read_payload-too_large_example =
    read_payload-too_large (zeros 50_000_001) [] timed_out (omega (arith, length-zeros 50_000_001))
      (omega (arith, length-zeros 50_000_001))

-- An agent that reads the command and is late with the answer.
abbrev pub empty_codec : Codec ℕ
empty_codec = record {
  encode = λ cmd. cmd.command_type ∷ [];
  decode = λ bytes. inr (codes "invalid");
  io_text = λ e. codes "timed out";
}

abbrev silent : Connection
silent = record {
  write_fails = none;
  written = [];
  incoming = record { arrived = []; stop = timed_out };
}

start_cpu_recording_fast-start_cpu_recording_example :
    ((start_cpu_recording_fast empty_codec silent).1.written
      ≡ [] ++ frame (empty_codec.encode start_command))
    × ((start_cpu_recording empty_codec silent).1 ≡ (start_cpu_recording_fast empty_codec silent).1)
    × (IsDone (start_cpu_recording empty_codec silent).0
        → IsDone (start_cpu_recording_fast empty_codec silent).0)
    × ((e : IoError)
        → is_timeout_error e ≡ true
        → (read_message empty_codec (write_message empty_codec start_command silent).1).0
          ≡ inr (io e)
        → IsDone (start_cpu_recording_fast empty_codec silent).0
          × ¬ IsDone (start_cpu_recording empty_codec silent).0)
start_cpu_recording_fast-start_cpu_recording_example =
    start_cpu_recording_fast-start_cpu_recording empty_codec silent refl

abbrev site : ℤ → ℤ → AllocationTreeNode
site id parent_id = record {
  id = id;
  parent_id = parent_id;
  class_name = codes "shop.Cart";
  method_name = codes "add";
  method_descriptor = codes "()V";
  allocated_type = codes "int[]";
  file_name = codes "Cart.java";
  line_number = pos 7;
  allocated_size = 64;
  instance_count = 2;
}

abbrev sites : List AllocationTreeNode
sites = site (pos 0) (negsuc 0) ∷ site (pos 1) (pos 0) ∷ site (pos 2) (pos 1) ∷ []

allocation_depth-Chain_example :
    (allocation_depth (pos 1) sites ≤ 16)
    × ((n : ℕ) → Chain sites (pos 1) n → allocation_depth (pos 1) sites ≡ min n 16)
allocation_depth-Chain_example = allocation_depth-Chain sites (pos 1)
