-- ===== src/Tests/Attaching.antt =====
-- An agent is looked for, attached and awaited.
use oprofiler.Base.{
  ℕ, suc, ◌+◌, ◌*◌, ◌≤◌, ◌<◌, ◌≡◌, ◌↔◌, ◌++◌, refl, [], ◌∷◌, List, none, some, Option, arith, true,
  Result, done, failed, false, All, subst,
}
use oprofiler.Base.Text.{Text, codes, text_eq, lines}
use oprofiler.Tests.Values.{whole_host}
use oprofiler.Tests.Wire.{empty_codec}
use oprofiler.Tests.Dumps.{dump, dump-HasParensInOrder}
use oprofiler.Jvm.Output.{Output}
use oprofiler.Jvm.ThreadDump.Frames.{HasParensInOrder}
use oprofiler.App.Attach.Paths.{
  Files, other_platform, AgentRuntimePaths, find_agent_jar, find_attach_classpath,
  release_or_debug_native_dll, runtime_roots, resolve_agent_runtime_paths,
}
use oprofiler.App.Attach.Paths.Found.{
  first_of, resolve_agent_runtime_paths_iff, resolve_agent_runtime_paths-exists,
}
use oprofiler.App.Attach.Discovery.{discover_openprofiler_agent_port, is_done}
use oprofiler.App.Attach.Discovery.Candidates.{
  Discovered, discover_openprofiler_agent_port-Discovered,
}
use oprofiler.App.Attach.Start.{
  WaitRound, StartWorld, wait_for_openprofiler_agent, start_attempt,
  start_openprofiler_cpu_recording_for_pid,
}
use oprofiler.App.Attach.Start.Waiting.{Paced, Waited, wait_for_openprofiler_agent-Waited}
use oprofiler.App.Attach.Start.Outcome.{Obtained, start_openprofiler_cpu_recording_for_pid-returns}
use oprofiler.App.State.{QueryResult, Task, capture_thread_dump}
use oprofiler.App.Flight.{Answers}
use oprofiler.App.Tasks.{TaskWorld, run_task}
use oprofiler.App.Tasks.Sent.{IsSane, run_task-Sends}
use oprofiler.Protocol.Client.{Connection}

-- A directory in which everything exists.
abbrev full_files : Files
full_files = record {
  exists = λ path. true;
  join_path = λ a b. a ++ (b'/' ∷ b);
  same_path = text_eq;
  less_path = λ a b. false;
  display = λ path. path;
}

abbrev full_paths : AgentRuntimePaths
full_paths = record {
  agent_jar = codes "w/java-agent-0.1.0.jar";
  attach_classpath = codes "w/attach";
  native_dll = some (codes "w/libjvmti_agent_rust.so");
}

resolve_agent_runtime_paths_iff_example :
    (resolve_agent_runtime_paths full_files other_platform (codes "w") none ≡ done full_paths) ↔ (
      (first_of
          (find_agent_jar full_files other_platform)
          (runtime_roots full_files other_platform (codes "w") none)
        ≡ some full_paths.agent_jar)
      × ((first_of
              (find_attach_classpath full_files other_platform)
              (runtime_roots full_files other_platform (codes "w") none)
            ≡ some full_paths.attach_classpath)
          × (first_of
                (release_or_debug_native_dll full_files other_platform)
                (runtime_roots full_files other_platform (codes "w") none)
              ≡ full_paths.native_dll)))
resolve_agent_runtime_paths_iff_example =
    resolve_agent_runtime_paths_iff full_files other_platform (codes "w") none full_paths

full_paths-resolved :
    resolve_agent_runtime_paths full_files other_platform (codes "w") none ≡ done full_paths
unfolding resolve_agent_runtime_paths runtime_roots find_agent_jar find_attach_classpath
    release_or_debug_native_dll oprofiler.Base.Sort.sort_by
full_paths-resolved = refl

resolve_agent_runtime_paths-exists_example :
    (full_files.exists full_paths.agent_jar ≡ true)
    × ((full_files.exists
            (full_files.join_path full_paths.attach_classpath (codes "AttachAgent.class"))
          ≡ true)
        × ((dll : Text) → full_paths.native_dll ≡ some dll → full_files.exists dll ≡ true))
resolve_agent_runtime_paths-exists_example =
    resolve_agent_runtime_paths-exists full_files other_platform (codes "w") none full_paths
      full_paths-resolved

abbrev nobody : ℕ → Result Connection
nobody port = failed (codes "refused")

discover_openprofiler_agent_port-Discovered_example :
    Discovered empty_codec nobody
      (8850 ∷ 80 ∷ [])
      8849
      (discover_openprofiler_agent_port empty_codec nobody (8850 ∷ 80 ∷ []) 8849)
discover_openprofiler_agent_port-Discovered_example =
    discover_openprofiler_agent_port-Discovered empty_codec nobody (8850 ∷ 80 ∷ []) 8849

-- Rounds that are as short as can be, in which no agent answers.
abbrev lonely_rounds : ℕ → WaitRound
lonely_rounds k = record { at = 7 + k * 250_000_000; owners = 4711 ∷ []; connected = nobody 0 }

lonely_rounds-Paced : Paced 7 lonely_rounds
lonely_rounds-Paced = (omega arith, λ k. omega arith)

wait_for_openprofiler_agent-Waited_example :
    Waited empty_codec lonely_rounds 4711
      (7 + 8_000_000_000)
      0
      (wait_for_openprofiler_agent empty_codec lonely_rounds 7 8_000_000_000 4711 8849)
wait_for_openprofiler_agent-Waited_example =
    wait_for_openprofiler_agent-Waited empty_codec lonely_rounds 7 8_000_000_000 4711 8849
      lonely_rounds-Paced

abbrev lonely_world : StartWorld
lonely_world = record {
  listening = 8850 ∷ [];
  discovery = nobody;
  ports = record { owner_pids = λ port. []; bind_v4 = λ port. true; bind_v6 = λ port. true };
  attach = λ port. done [];
  waits_from = 7;
  rounds = λ port. lonely_rounds;
  attempts = λ port. nobody;
}

start_openprofiler_cpu_recording_for_pid-returns_example :
    (answer : Result ℕ) × ((start_openprofiler_cpu_recording_for_pid empty_codec lonely_world 4711
          8849
        ≡ some answer)
      × ((port : ℕ)
          → answer ≡ done port
          → Obtained empty_codec lonely_world 4711 8849 port
            × ((k : ℕ) × ((k < 3)
                  × (is_done (start_attempt empty_codec (lonely_world.attempts port k)) ≡ true)))))
start_openprofiler_cpu_recording_for_pid-returns_example =
    start_openprofiler_cpu_recording_for_pid-returns empty_codec lonely_world 4711 8849
      (λ port. lonely_rounds-Paced)

abbrev dump_output : Output
dump_output = record { success = true; status = codes "exit code: 0"; stdout = dump; stderr = [] }

-- If there is an output, the frames in it have their parentheses in order.
abbrev PrintsInOrder : Result Output → Type 0
PrintsInOrder (done output) = All HasParensInOrder (lines output.stdout)
PrintsInOrder (failed message) = Unit {0}

abbrev silent_world : TaskWorld
silent_world = record {
  jps = failed (codes "no jps");
  process = λ pid. none;
  heap = λ pid. none;
  counters = λ pid. none;
  histogram = λ pid. failed (codes "no jcmd");
  threads = λ pid. done dump_output;
  collection = λ pid. failed (codes "no jcmd");
  stamp = codes "12:00:00";
  memory_agent = nobody;
  cpu_agent = nobody;
  stop_agent = nobody;
  asks_from = 7;
  asked_at = λ k. 7 + k * 100_000_000;
  start = λ includes. lonely_world;
}

silent_world-IsSane : IsSane silent_world
silent_world-IsSane = (
  λ includes port. lonely_rounds-Paced,
  ((omega arith, λ k. omega arith), λ pid output e. subst PrintsInOrder e dump-HasParensInOrder),
)

abbrev dump_task : Task ℕ
dump_task = capture_thread_dump 4711

run_task-Sends_example :
    (r : QueryResult ℕ) × ((run_task whole_host empty_codec silent_world dump_task ≡ some r)
      × Answers dump_task r)
run_task-Sends_example =
    run_task-Sends whole_host empty_codec silent_world dump_task silent_world-IsSane
