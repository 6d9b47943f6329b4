-- ===== src/App/Attach/Start/Outcome.antt =====
-- app.rs: what a recording that has been started in a process rests on.
use oprofiler.Base.{
  ℕ, zero, suc, ◌+◌, ◌<◌, ◌≡◌, inl, inr, true, Option, none, some, Option-cases, Result, done,
  failed, arith, refl, ap, sym, ◌∙◌, Result-cases, subst,
}
use oprofiler.Base.Text.{Text, codes}
use oprofiler.Protocol.Client.{Codec, Connection}
use oprofiler.App.Attach.{select_attach_port}
use oprofiler.App.Attach.Discovery.{discover_openprofiler_agent_port, is_done}
use oprofiler.App.Attach.Start.{
  not_ready, StartWorld, is_ready, start_attempt, start_attempts, attach_and_wait, agent_port_of,
  commanded, start_openprofiler_cpu_recording_for_pid, wait_for_openprofiler_agent, reported,
}
use oprofiler.App.Attach.Start.Waiting.{Paced, wait_for_openprofiler_agent-Waited}

-- How the agent on a port was come by: it was there, or it was attached on a selected port and was
-- found ready in a round that started within eight seconds.
pub data Obtained {F : Type 0} (codec : Codec F) (world : StartWorld) (pid preferred : ℕ)
    : ℕ → Type 0 where
  was_there :
      (port : ℕ)
      → discover_openprofiler_agent_port codec world.discovery world.listening preferred ≡ some port
      → Obtained codec world pid preferred port
  attached :
      (port : ℕ) (text : Text) (ready : ℕ)
      → discover_openprofiler_agent_port codec world.discovery world.listening preferred ≡ none
      → select_attach_port world.ports pid preferred ≡ some port
      → world.attach port ≡ done text
      → (world.rounds port ready).at < world.waits_from + 8_000_000_000
      → is_ready codec pid (world.rounds port ready) ≡ true
      → Obtained codec world pid preferred port

module _ {F : Type 0} (codec : Codec F) where
  -- The command is given until it succeeds, at most `left` times.
  start_attempts-succeeds :
      (connects : ℕ → Result Connection) (left n : ℕ) (last_err : Text) (u : Unit {0})
      → start_attempts codec connects left n last_err ≡ done u
      → (k : ℕ) × ((k < n + left) × (is_done (start_attempt codec (connects k)) ≡ true))
  unfolding start_attempts
  start_attempts-succeeds connects zero n last_err u h = absurd (ground (arith, h))
  start_attempts-succeeds connects (suc left) n last_err u h =
      elim (Result-cases (start_attempt codec (connects n))) [
        | inl (v, e) ↦ (n, (omega arith, ap is_done e))
        | inr (err, e) ↦
            let (k, (in_time, success)) = start_attempts-succeeds connects left (n + 1) err u (
              sym (
                ap
                  (λ r. elim r as (λ _. Result (Unit {0})) [
                    | done v ↦ done v
                    | failed err ↦ start_attempts codec connects left (n + 1) err
                  ])
                  e)
              ∙ h) in
            (k, (omega (arith, in_time), success))
      ]

  -- A run has returned, and a port that it gives is an agent's.
  abbrev Gives : StartWorld → ℕ → ℕ → Option (Result ℕ) → Type 0
  Gives world pid preferred ran =
      (answer : Result ℕ) × ((ran ≡ some answer)
        × ((port : ℕ) → answer ≡ done port → Obtained codec world pid preferred port))

  Gives-failed :
      (world : StartWorld) (pid preferred : ℕ) (err : Text)
      → Gives world pid preferred (some (failed err))
  Gives-failed world pid preferred err = (failed err, (refl, λ port e. absurd (ground (arith, e))))

  Gives-port :
      (world : StartWorld) (pid preferred port : ℕ)
      → Obtained codec world pid preferred port
      → Gives world pid preferred (some (done port))
  Gives-port world pid preferred port obtained = (
    done port,
    (
      refl,
      λ port' e.
          let same : port ≡ port' = ground (arith, e) in
          subst (Obtained codec world pid preferred) same obtained,
    ),
  )

  abbrev wait_of : StartWorld → ℕ → ℕ → Option (Result (Unit {0}))
  wait_of world pid port =
      wait_for_openprofiler_agent codec (world.rounds port) world.waits_from 8_000_000_000 pid port

  -- What an attached agent's wait gives.
  attached-Gives :
      (world : StartWorld) (pid preferred port : ℕ) (text : Text)
      → Paced world.waits_from (world.rounds port)
      → discover_openprofiler_agent_port codec world.discovery world.listening preferred ≡ none
      → select_attach_port world.ports pid preferred ≡ some port
      → world.attach port ≡ done text
      → Gives world pid preferred (attach_and_wait codec world pid preferred)
  unfolding attach_and_wait
  attached-Gives world pid preferred port text paced unfound selected text_is =
      let (last, n_le, passed, ending) =
        wait_for_openprofiler_agent-Waited codec (world.rounds port) world.waits_from 8_000_000_000
          pid port paced in
      elim ending [
        | inl (early, ready, e) ↦
            rw (selected, text_is, e, attach_and_wait)
              (Gives-port world pid preferred port
                (attached port text last unfound selected text_is early ready))
        | inr (late, (err, e)) ↦
            rw (selected, text_is, e, attach_and_wait)
              (Gives-failed world pid preferred (not_ready codec port err))
      ]

  attach_and_wait-Gives :
      (world : StartWorld) (pid preferred : ℕ)
      → ((port : ℕ) → Paced world.waits_from (world.rounds port))
      → discover_openprofiler_agent_port codec world.discovery world.listening preferred ≡ none
      → Gives world pid preferred (attach_and_wait codec world pid preferred)
  unfolding attach_and_wait
  attach_and_wait-Gives world pid preferred paced unfound =
      elim (Option-cases (select_attach_port world.ports pid preferred)) [
        | inl e ↦
            rw (e, attach_and_wait)
              (Gives-failed world pid preferred
                (codes "no free OpenProfiler TCP agent port in 8849..8999"))
        | inr (port, e) ↦ elim (Result-cases (world.attach port)) [
          | inl (text, e') ↦ attached-Gives world pid preferred port text (paced port) unfound e e'
          | inr (err, e') ↦ rw (e, e', attach_and_wait) (Gives-failed world pid preferred err)
        ]
      ]

  agent_port_of-Gives :
      (world : StartWorld) (pid preferred : ℕ)
      → ((port : ℕ) → Paced world.waits_from (world.rounds port))
      → Gives world pid preferred (agent_port_of codec world pid preferred)
  unfolding agent_port_of
  agent_port_of-Gives world pid preferred paced =
      elim (Option-cases
        (discover_openprofiler_agent_port codec world.discovery world.listening preferred)) [
          | inl e ↦ rw (e, agent_port_of) (attach_and_wait-Gives world pid preferred paced e)
          | inr (port, e) ↦
              rw (e, agent_port_of) (Gives-port world pid preferred port (was_there port e))
        ]

  commanded-done :
      (world : StartWorld) (answer : Result ℕ) (port : ℕ)
      → commanded codec world answer ≡ done port
      → (answer ≡ done port)
        × ((k : ℕ) × ((k < 3) × (is_done (start_attempt codec (world.attempts port k)) ≡ true)))
  commanded-done world (failed err) port h = absurd (ground (arith, h))
  commanded-done world (done port') port h =
      elim (Result-cases
        (start_attempts codec (world.attempts port') 3 0 (codes "unknown TCP agent error"))) [
          | inl (u, e) ↦ (
            sym (ap (reported codec port') e) ∙ h,
            let same : port' ≡ port = ground (arith, sym (ap (reported codec port') e) ∙ h) in
                subst
                  (λ p.
                    (k : ℕ) × ((k < 3)
                      × (is_done (start_attempt codec (world.attempts p k)) ≡ true)))
                  same
                  (start_attempts-succeeds (world.attempts port') 3 0
                    (codes "unknown TCP agent error") u e),
          )
          | inr (err, e) ↦ absurd (ground (arith, sym (ap (reported codec port') e) ∙ h))
        ]

  -- Starting a recording always comes to an end, if the rounds of its wait are at least their sleep
  -- apart. Where it gives a port, an agent was found on it, or was attached on it as the selected
  -- port and found ready in a round that started within eight seconds, and one of three attempts to
  -- give it the command succeeded.
  pub start_openprofiler_cpu_recording_for_pid-returns :
      (world : StartWorld) (pid preferred : ℕ)
      → ((port : ℕ) → Paced world.waits_from (world.rounds port))
      → (answer : Result ℕ) × ((start_openprofiler_cpu_recording_for_pid codec world pid preferred
            ≡ some answer)
          × ((port : ℕ)
              → answer ≡ done port
              → Obtained codec world pid preferred port
                × ((k : ℕ) × ((k < 3)
                      × (is_done (start_attempt codec (world.attempts port k)) ≡ true)))))
  unfolding start_openprofiler_cpu_recording_for_pid
  start_openprofiler_cpu_recording_for_pid-returns world pid preferred paced =
      let (given, (e, obtained)) = agent_port_of-Gives world pid preferred paced in
      (
        commanded codec world given,
        (
          rw (e, start_openprofiler_cpu_recording_for_pid) refl,
          λ port h.
              let (same, success) = commanded-done world given port h in
              (obtained port same, success),
        ),
      )
