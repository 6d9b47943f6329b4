-- ===== src/App/Attach/Start.antt =====
-- app.rs: starting and stopping a recording in a process: an agent is looked for, attached where there
-- is none, awaited, and told to start, up to three times.
pub mod Waiting
pub mod Outcome
use oprofiler.Base.{
  zero, suc, ◌&&◌, ◌>>=◌, List, [], ◌∷◌, true, false, none, some, ℕ, Result, ◌/◌, Bool, Option,
  failed, ◌+◌, done, if◌then◌else◌, map_err, ◌++◌, not, ltb,
}
use oprofiler.Base.Text.{Text, codes, to_decimal}
use oprofiler.Protocol.Client.{
  Codec, Connection, start_cpu_recording_fast, stop_cpu_recording_fast, client_get_memory_data,
}
use oprofiler.App.Attach.Discovery.{answers_cpu_data, discover_openprofiler_agent_port, is_done}
use oprofiler.App.Attach.{Ports, is_empty_or_contains, select_attach_port}
use oprofiler.Model.Rows.{AllocationHotSpotRow}
use oprofiler.Protocol.Rows.{allocation_hotspots_from_agent_data}

-- What the world answers in one round of the wait: the time at the test of the deadline, the owners of
-- the port, and the connection.
pub record WaitRound : Type 0 where
  pub at : ℕ
  pub owners : List ℕ
  pub connected : Result Connection

abbrev pub wait_interval : ℕ
wait_interval = 250_000_000

-- Each round takes at least the 250 ms that it sleeps.
abbrev pub rounds_for : ℕ → ℕ
rounds_for timeout = suc (timeout / wait_interval + 1)

abbrev error_or {ℓ} : {A : Type ℓ} → Result A → Text → Text
error_or (done a) last_err = last_err
error_or (failed err) last_err = err

-- What the world answers while a recording is started in a process.
pub record StartWorld : Type 0 where
  -- The ports that the process listens on, and the connections of the discovery.
  pub listening : List ℕ
  pub discovery : ℕ → Result Connection
  -- The state of the host's ports, and the attach helper.
  pub ports : Ports
  pub attach : ℕ → Result Text
  -- The time when the wait begins, and its rounds on a port.
  pub waits_from : ℕ
  pub rounds : ℕ → ℕ → WaitRound
  -- The connections of the attempts on a port.
  pub attempts : ℕ → ℕ → Result Connection

module _ {F : Type 0} (codec : Codec F) where
  -- The error after a round in which no agent answered.
  unfoldable pub round_error : ℕ → ℕ → WaitRound → Text → Text
  unfolding answers_cpu_data
  round_error pid port round last_err =
      if is_empty_or_contains round.owners pid
      then error_or (answers_cpu_data codec round.connected) last_err
      else codes "port " ++ (to_decimal port ++ (codes " is not owned by JVM " ++ to_decimal pid))

  abbrev is_ready : ℕ → WaitRound → Bool
  is_ready pid round =
      is_empty_or_contains round.owners pid && is_done (answers_cpu_data codec round.connected)

  -- The loop, on fuel, from round `n` on; `none` means that the fuel ran out.
  unfoldable pub wait_rounds :
      (ℕ → WaitRound) → ℕ → ℕ → ℕ → ℕ → ℕ → Text → Option (Result (Unit {0}))
  unfolding round_error
  wait_rounds rounds pid port deadline zero n last_err = none
  wait_rounds rounds pid port deadline (suc fuel) n last_err =
      let later =
        wait_rounds rounds pid port deadline fuel (n + 1)
          (round_error pid port (rounds n) last_err) in
      if not (ltb (rounds n).at deadline)
      then some (failed last_err)
      else if is_ready pid (rounds n)
      then some (done tt)
      else later

  unfoldable pub wait_for_openprofiler_agent :
      (ℕ → WaitRound) → ℕ → ℕ → ℕ → ℕ → Option (Result (Unit {0}))
  unfolding wait_rounds
  wait_for_openprofiler_agent rounds now timeout pid port =
      wait_rounds rounds pid port (now + timeout) (rounds_for timeout) 0
        (codes "agent was not reachable")

  -- One attempt to give the command: over a connection, without waiting for the agent.
  unfoldable pub start_attempt : Result Connection → Result (Unit {0})
  start_attempt connected = connected >>= λ c. (start_cpu_recording_fast codec c).0

  -- The attempts that are left, with the error of the last one.
  unfoldable pub start_attempts : (ℕ → Result Connection) → ℕ → ℕ → Text → Result (Unit {0})
  unfolding start_attempt
  start_attempts connects zero n last_err = failed last_err
  start_attempts connects (suc left) n last_err = elim (start_attempt (connects n)) [
    | done u ↦ done u
    | failed err ↦ start_attempts connects left (n + 1) err
  ]

  abbrev pub not_ready : ℕ → Text → Text
  not_ready port err =
      codes "attached agent did not become ready on port "
      ++ (to_decimal port ++ (codes ": " ++ err))

  -- The port of a fresh agent, once it is ready; `none` where the wait runs out of fuel.
  unfoldable pub attach_and_wait : StartWorld → ℕ → ℕ → Option (Result ℕ)
  unfolding wait_for_openprofiler_agent
  attach_and_wait world pid preferred_port =
      elim (select_attach_port world.ports pid preferred_port) [
        | none ↦ some (failed (codes "no free OpenProfiler TCP agent port in 8849..8999"))
        | some port ↦ elim (world.attach port) [
          | failed err ↦ some (failed err)
          | done text ↦
              elim (wait_for_openprofiler_agent (world.rounds port) world.waits_from 8_000_000_000
                pid port) [
                  | none ↦ none
                  | some (failed err) ↦ some (failed (not_ready port err))
                  | some (done u) ↦ some (done port)
                ]
        ]
      ]

  unfoldable pub agent_port_of : StartWorld → ℕ → ℕ → Option (Result ℕ)
  unfolding attach_and_wait
  agent_port_of world pid preferred_port =
      elim (discover_openprofiler_agent_port codec world.discovery world.listening preferred_port) [
        | some port ↦ some (done port)
        | none ↦ attach_and_wait world pid preferred_port
      ]

  abbrev command_failed : Text → ℕ → Text → Text
  command_failed what port err =
      codes "agent "
      ++ (what ++ (codes " failed on 127.0.0.1:" ++ (to_decimal port ++ (codes ": " ++ err))))

  abbrev pub reported : ℕ → Result (Unit {0}) → Result ℕ
  reported port (done u) = done port
  reported port (failed err) = failed (command_failed (codes "command") port err)

  -- The command on the agent's port.
  abbrev pub commanded : StartWorld → Result ℕ → Result ℕ
  commanded world (failed err) = failed err
  commanded world (done port) =
      reported port (start_attempts (world.attempts port) 3 0 (codes "unknown TCP agent error"))

  unfoldable pub start_openprofiler_cpu_recording_for_pid : StartWorld → ℕ → ℕ → Option (Result ℕ)
  unfolding agent_port_of start_attempts
  start_openprofiler_cpu_recording_for_pid world pid preferred_port =
      elim (agent_port_of world pid preferred_port) [
        | none ↦ none
        | some port ↦ some (commanded world port)
      ]

  unfoldable pub stop_openprofiler_cpu_recording_on_port : Result Connection → ℕ → Result (Unit {0})
  stop_openprofiler_cpu_recording_on_port connected port =
      map_err (command_failed (codes "stop command") port)
        (connected >>= λ c. (stop_cpu_recording_fast codec c).0)

  unfoldable pub query_allocation_hotspots : Result Connection → Result (List AllocationHotSpotRow)
  query_allocation_hotspots connected = do
    client ← connected
    memory ← (client_get_memory_data codec client).0
    done (allocation_hotspots_from_agent_data memory)
