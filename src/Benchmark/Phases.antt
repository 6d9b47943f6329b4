-- ===== src/Benchmark/Phases.antt =====
-- crates/tui/src/benchmark.rs: which results there are in each phase, and how the phases are passed.
use oprofiler.Base.{
  ◌>>=◌, ◌==◌, ◌≤◌, ◌≡◌, List, [], ◌∷◌, ◌++◌, true, false, Bool-cases, inl, inr, Option, none, some,
  refl, ap, sym, ◌∙◌, arith, map, length, Result, done, failed, append_assoc, append-nil, any_of,
  ◌≢◌, length-map, ◌||◌, map_err, any_of-append,
}
use oprofiler.Base.Text.{Text, codes}
use oprofiler.Model.Floats.{Host}
use oprofiler.Event.{is_pressed, KeyEvent, KeyCode, char, esc, enter, press}
use oprofiler.Protocol.Client.{
  Connection, Codec, client_get_cpu_data, start_cpu_recording, stop_cpu_recording,
}
use oprofiler.Benchmark.{
  BenchmarkPhase, idle, profiling, idle_after, BenchmarkResult, Bench, Measurement, start_bench,
  run_phase, conclude_phase, run_turn, bench_key, input_turn, run_profiling_phase, run_idle_phase,
  after_command, measured,
}
use mathlib.Core.List.{map-append}
use oprofiler.Benchmark.Screen.{blue, indicator, any_of_phase, same_phase}

-- What the results of a phase's state are tagged with.
pub data Passed : BenchmarkPhase → List BenchmarkPhase → Type 0 where
  none_passed : Passed idle []
  one_passed : Passed profiling (idle ∷ [])
  two_passed : Passed idle_after (idle ∷ profiling ∷ [])
  again :
      (tags : List BenchmarkPhase) → Passed idle_after tags → Passed idle_after (tags ++ idle ∷ [])

abbrev pub tag : {F : Type 0} → BenchmarkResult F → BenchmarkPhase
tag r = r.phase

-- The phase after a result.
abbrev pub next_phase : BenchmarkPhase → BenchmarkPhase
next_phase idle = profiling
next_phase profiling = idle_after
next_phase idle_after = idle_after

-- The tag of a phase's result.
abbrev tag_of : BenchmarkPhase → BenchmarkPhase
tag_of idle = idle
tag_of profiling = profiling
tag_of idle_after = idle

abbrev pub moved_phase {ℓ} : {A : Type ℓ} → Result A → BenchmarkPhase → BenchmarkPhase
moved_phase (done result) phase = next_phase phase
moved_phase (failed err) phase = phase

abbrev pub gained {ℓ} : {A : Type ℓ} → Result A → List A
gained (done result) = result ∷ []
gained (failed err) = []

Passed-length :
    (phase : BenchmarkPhase) (tags : List BenchmarkPhase)
    → Passed phase tags
    → 2 ≤ length tags
    → phase ≡ idle_after
Passed-length _ _ none_passed h = absurd (omega (arith, h))
Passed-length _ _ one_passed h = absurd (omega (arith, h))
Passed-length _ _ two_passed h = refl
Passed-length _ _ (again tags p) h = refl

module _ {F : Type 0} (host : Host F) (codec : Codec F) where
  -- The states of a run: the loop goes on while `running`, and it reads keys while it waits.
  pub data Turns : Bench F → Type 0 where
    started : (client : Connection) → Turns (start_bench client)
    read :
        (b : Bench F) (event : Option KeyEvent)
        → Turns b
        → b.running ≡ true
        → b.waiting_for_input ≡ true
        → Turns (input_turn host codec event b)
    ran :
        (b : Bench F) (m : Measurement)
        → Turns b
        → b.running ≡ true
        → b.waiting_for_input ≡ false
        → Turns (run_turn host codec m b)

  -- What a turn that runs a phase does, whatever the phase is.
  abbrev Concludes : Result (BenchmarkResult F) → Bench F → Bench F → Type 0
  Concludes result b b' =
      ((b'.results ≡ b.results ++ gained result)
        × (b'.current_phase ≡ moved_phase result b.current_phase))
      × ((b'.client ≡ b.client) × ((b'.waiting_for_input ≡ true) × (b'.running ≡ b.running)))

  conclude_phase-Concludes :
      (result : Result (BenchmarkResult F)) (b : Bench F)
      → Concludes result b (conclude_phase host codec result b)
  unfolding conclude_phase
  conclude_phase-Concludes (failed err) b =
      ((sym (append-nil b.results), refl), (refl, (refl, refl)))
  conclude_phase-Concludes (done result) b =
      elim (b.current_phase)
        as (λ phase.
          Concludes (done result) (record b { current_phase = phase })
            (conclude_phase host codec (done result) (record b { current_phase = phase }))) [
              | idle ↦ ((refl, refl), (refl, (refl, refl)))
              | profiling ↦ ((refl, refl), (refl, (refl, refl)))
              | idle_after ↦ ((refl, refl), (refl, (refl, refl)))
            ]

  -- The phase's answer, and the state that it is concluded in.
  abbrev answer_of : Measurement → Bench F → Result (BenchmarkResult F)
  answer_of m b = (run_phase host codec m b.current_phase b.client).0

  abbrev client_after : Measurement → Bench F → Connection
  client_after m b = (run_phase host codec m b.current_phase b.client).1

  run_turn-Concludes :
      (m : Measurement) (b : Bench F)
      → Concludes (answer_of m b) (record b { client = client_after m b }) (run_turn host codec m b)
  unfolding run_turn
  run_turn-Concludes m b =
      conclude_phase-Concludes (answer_of m b) (record b { client = client_after m b })

  after_command-tag :
      (phase : BenchmarkPhase) (context : Text) (answer : Result (Unit {0}) × Connection)
      (result : Result (BenchmarkResult F))
      → map tag (gained result) ≡ map (λ r. tag_of phase) (gained result)
      → map tag (gained (after_command host codec context answer result).0)
        ≡ map (λ r. tag_of phase) (gained (after_command host codec context answer result).0)
  after_command-tag phase context (done u, client) result tagged = tagged
  after_command-tag phase context (failed e, client) result tagged = refl

  bound-tag {ℓ} :
      {A : Type ℓ} (phase : BenchmarkPhase) (ran : Result A) (next : A → Result (BenchmarkResult F))
      → ((a : A) → map tag (gained (next a)) ≡ map (λ r. tag_of phase) (gained (next a)))
      → map tag (gained (ran >>= next)) ≡ map (λ r. tag_of phase) (gained (ran >>= next))
  bound-tag phase (done a) next tagged = tagged a
  bound-tag phase (failed e) next tagged = refl

  run_profiling_phase-tag :
      (m : Measurement)
      → map tag (gained (run_profiling_phase host codec m))
        ≡ map (λ r. profiling) (gained (run_profiling_phase host codec m))
  unfolding run_profiling_phase
  run_profiling_phase-tag m =
      bound-tag profiling (map_err (λ e. codes "Failed to connect: " ++ e) m.connected)
        (λ client.
          map_err (λ e. codes "get_cpu_data failed: " ++ e) (client_get_cpu_data codec client).0
          >>= λ _. done (measured host codec profiling m.elapsed))
        (λ client.
          bound-tag profiling
            (map_err (λ e. codes "get_cpu_data failed: " ++ e) (client_get_cpu_data codec client).0)
            (λ _. done (measured host codec profiling m.elapsed)) (λ _. refl))

  run_phase-tag :
      (m : Measurement) (phase : BenchmarkPhase) (client : Connection)
      → map tag (gained (run_phase host codec m phase client).0)
        ≡ map (λ r. tag_of phase) (gained (run_phase host codec m phase client).0)
  unfolding run_phase run_idle_phase
  run_phase-tag m idle client = refl
  run_phase-tag m profiling client =
      after_command-tag profiling (codes "Failed to start recording: ")
        (start_cpu_recording codec client) (run_profiling_phase host codec m)
        (run_profiling_phase-tag m)
  run_phase-tag m idle_after client =
      after_command-tag idle_after (codes "Failed to stop recording: ")
        (stop_cpu_recording codec client) (run_idle_phase host codec m) refl

  Passed-gained :
      (result : Result (BenchmarkResult F)) (phase : BenchmarkPhase) (tags : List BenchmarkPhase)
      → Passed phase tags
      → Passed (moved_phase result phase) (tags ++ map (λ r. tag_of phase) (gained result))
  Passed-gained (failed err) phase tags p = rw (append-nil tags) p
  Passed-gained (done result) _ _ none_passed = one_passed
  Passed-gained (done result) _ _ one_passed = two_passed
  Passed-gained (done result) _ _ two_passed = again (idle ∷ profiling ∷ []) two_passed
  Passed-gained (done result) _ _ (again tags p) = again (tags ++ idle ∷ []) (again tags p)

  run_turn-Passed :
      (m : Measurement) (b : Bench F)
      → Passed b.current_phase (map tag b.results)
      → Passed (run_turn host codec m b).current_phase (map tag (run_turn host codec m b).results)
  run_turn-Passed m b p =
      let ((results, phase), others) = run_turn-Concludes m b in
      rw
        (
          results,
          phase,
          map-append tag b.results (gained (answer_of m b)),
          run_phase-tag m b.current_phase b.client,
        )
        (Passed-gained (answer_of m b) b.current_phase (map tag b.results) p)

  bench_key-Passed :
      (key : KeyCode) (b : Bench F)
      → Passed b.current_phase (map tag b.results)
      → Passed
          (bench_key host codec key b).current_phase
          (map tag (bench_key host codec key b).results)
  unfolding bench_key
  bench_key-Passed (char c) b p = elim (Bool-cases (c == b'q')) [
    | inl q ↦ rw q p
    | inr not_q ↦ elim (Bool-cases (c == b'r')) [
      | inl r ↦ rw (not_q, r) none_passed
      | inr not_r ↦ rw (not_q, not_r) p
    ]
  ]
  bench_key-Passed esc b p = p
  bench_key-Passed enter b p = p
  bench_key-Passed _ b p = p

  input_turn-Passed :
      (event : Option KeyEvent) (b : Bench F)
      → Passed b.current_phase (map tag b.results)
      → Passed
          (input_turn host codec event b).current_phase
          (map tag (input_turn host codec event b).results)
  unfolding input_turn
  input_turn-Passed none b p = p
  input_turn-Passed (some key) b p = elim (Bool-cases (is_pressed key.kind)) [
    | inl e ↦ rw e (bench_key-Passed key.key_code b p)
    | inr e ↦ rw e p
  ]

  -- In every state that the benchmark can reach, the results fit the phase: none before the
  -- baseline, the baseline before the profiling phase, and behind it the baseline, the profiled run
  -- and then any number of runs that are all tagged as baselines.
  pub Turns-Passed : (b : Bench F) → Turns b → Passed b.current_phase (map tag b.results)
  unfolding start_bench
  Turns-Passed _ (started client) = none_passed
  Turns-Passed _ (read b event turns running waiting) =
      input_turn-Passed event b (Turns-Passed b turns)
  Turns-Passed _ (ran b m turns running waiting) = run_turn-Passed m b (Turns-Passed b turns)

  any_of_phase-tags :
      (phase : BenchmarkPhase) (results : List (BenchmarkResult F))
      → any_of_phase phase results ≡ any_of (λ t. same_phase t phase) (map tag results)
  unfolding any_of_phase
  any_of_phase-tags phase [] = refl
  any_of_phase-tags phase (r ∷ rest) =
      ap (λ b. same_phase r.phase phase || b) (any_of_phase-tags phase rest)

  Passed-unseen :
      (phase : BenchmarkPhase) (tags : List BenchmarkPhase)
      → Passed phase tags
      → any_of (λ t. same_phase t idle_after) tags ≡ false
  unfolding same_phase
  Passed-unseen _ _ none_passed = refl
  Passed-unseen _ _ one_passed = refl
  Passed-unseen _ _ two_passed = refl
  Passed-unseen _ _ (again tags p) =
      any_of-append (λ t. same_phase t idle_after) tags (idle ∷ [])
      ∙ ap (λ b. b || false) (Passed-unseen idle_after tags p)

  -- In no state that the benchmark can reach is the line of the third phase blue, the colour of a
  -- phase that is over.
  pub indicator-blue : (b : Bench F) → Turns b → indicator b idle_after ≢ blue
  unfolding indicator
  indicator-blue b turns is_blue =
      let unseen =
        any_of_phase-tags idle_after b.results
        ∙ Passed-unseen b.current_phase (map tag b.results) (Turns-Passed b turns) in
      elim (Bool-cases (same_phase idle_after b.current_phase)) [
        | inl e ↦ absurd (ground (arith, is_blue, e))
        | inr e ↦ absurd (ground (arith, is_blue, e, unseen))
      ]

  -- The user presses Enter, and the phase runs.
  abbrev pub enter_key : KeyEvent
  enter_key = record { key_code = enter; modifiers = 0; kind = press }

  unfoldable pub round : Measurement → Bench F → Bench F
  round m b = run_turn host codec m (input_turn host codec (some enter_key) b)

  unfoldable pub rounds : List Measurement → Bench F → Bench F
  rounds [] b = b
  rounds (m ∷ later) b = rounds later (round m b)

  -- The results of phases that are run one after the other: one that fails is run again.
  unfoldable pub played : List Measurement → BenchmarkPhase → Connection → List (BenchmarkResult F)
  played [] phase client = []
  played (m ∷ later) phase client =
      let (result, client') = run_phase host codec m phase client in
      gained result ++ played later (moved_phase result phase) client'

  entered-running : (b : Bench F) → (input_turn host codec (some enter_key) b).running ≡ b.running
  unfolding input_turn
  entered-running b = refl

  entered-waiting :
      (b : Bench F) → (input_turn host codec (some enter_key) b).waiting_for_input ≡ false
  unfolding input_turn
  entered-waiting b = refl

  round-Concludes :
      (m : Measurement) (b : Bench F)
      → Concludes (answer_of m b) (record b { client = client_after m b }) (round m b)
  unfolding round input_turn
  round-Concludes m b = run_turn-Concludes m (input_turn host codec (some enter_key) b)

  round-Turns :
      (m : Measurement) (b : Bench F)
      → Turns b
      → b.running ≡ true
      → b.waiting_for_input ≡ true
      → Turns (round m b)
  unfolding round
  round-Turns m b turns running waiting =
      ran (input_turn host codec (some enter_key) b) m
        (read b (some enter_key) turns running waiting) (entered-running b ∙ running)
        (entered-waiting b)

  rounds-played :
      (ms : List Measurement) (b : Bench F)
      → (rounds ms b).results ≡ b.results ++ played ms b.current_phase b.client
  unfolding rounds played
  rounds-played [] b = sym (append-nil b.results)
  rounds-played (m ∷ later) b =
      let ((results, phase), (client, others)) = round-Concludes m b in
      rounds-played later (round m b)
      ∙ (rw (results, phase, client)
          (append_assoc b.results (gained (answer_of m b))
            (played later (moved_phase (answer_of m b) b.current_phase) (client_after m b))))

  rounds-Turns :
      (ms : List Measurement) (b : Bench F)
      → Turns b
      → b.running ≡ true
      → b.waiting_for_input ≡ true
      → Turns (rounds ms b)
  unfolding rounds
  rounds-Turns [] b turns running waiting = turns
  rounds-Turns (m ∷ later) b turns running waiting =
      let (others, (client, (waits, runs))) = round-Concludes m b in
      rounds-Turns later (round m b) (round-Turns m b turns running waiting) (runs ∙ running) waits

  -- The user who presses Enter again and again gets through the benchmark: of any rounds, the
  -- results are those of the phases run one after the other, each again until it succeeds, and as
  -- soon as two phases have succeeded the benchmark is in its last phase.
  pub rounds_complete :
      (client : Connection) (ms : List Measurement)
      → 2 ≤ length (played ms idle client)
      → ((rounds ms (start_bench client)).results ≡ played ms idle client)
        × (((rounds ms (start_bench client)).current_phase ≡ idle_after)
            × Turns (rounds ms (start_bench client)))
  unfolding start_bench
  rounds_complete client ms enough =
      let b = rounds ms (start_bench client) in
      let same : b.results ≡ played ms idle client = rounds-played ms (start_bench client) in
      let turns : Turns b = rounds-Turns ms (start_bench client) (started client) refl refl in
      (
        same,
        (
          Passed-length b.current_phase (map tag b.results) (Turns-Passed b turns)
              (omega (arith, length-map tag b.results, ap length same, enough)),
          turns,
        ),
      )
