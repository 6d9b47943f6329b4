-- ===== src/App/Attach/Start/Waiting.antt =====
-- app.rs: the wait for an agent that has just been attached.
use oprofiler.Base.{
  ℕ, zero, suc, ◌+◌, ◌*◌, ◌/◌, ◌≤◌, ◌<◌, ◌≡◌, ◌⊎◌, inl, inr, true, false, Option, some, ltb, Result,
  done, failed, arith, Bool-cases, subst, ap,
}
use oprofiler.Base.Text.{Text, codes}
use oprofiler.Protocol.Client.{Codec}
use oprofiler.App.Attach.Start.{
  WaitRound, wait_interval, is_ready, wait_rounds, wait_for_openprofiler_agent, round_error,
}

-- The rounds are at least the interval of the sleep apart, and none is before `now`.
abbrev pub Paced : ℕ → (ℕ → WaitRound) → Type 0
Paced now rounds =
    (now ≤ (rounds 0).at) × ((k : ℕ) → (rounds k).at + wait_interval ≤ (rounds (suc k)).at)

module _ {F : Type 0} (codec : Codec F) where
  -- A round that is in time and finds no agent.
  abbrev pub Passed : (ℕ → WaitRound) → ℕ → ℕ → ℕ → Type 0
  Passed rounds pid deadline k =
      ((rounds k).at < deadline) × (is_ready codec pid (rounds k) ≡ false)

  -- How a wait ends from round `n` on: with the first ready round that is in time, or with an error
  -- at the first round that is not in time.
  abbrev pub Waited : (ℕ → WaitRound) → ℕ → ℕ → ℕ → Option (Result (Unit {0})) → Type 0
  Waited rounds pid deadline n answer =
      (last : ℕ) × (n ≤ last)
      × ((k : ℕ) → n ≤ k → k < last → Passed rounds pid deadline k)
      × ((((rounds last).at < deadline)
            × (is_ready codec pid (rounds last) ≡ true)
            × (answer ≡ some (done tt)))
          ⊎ ((deadline ≤ (rounds last).at) × ((err : Text) × (answer ≡ some (failed err)))))

  earlier_rounds :
      (rounds : ℕ → WaitRound) (pid deadline n last : ℕ)
      → Passed rounds pid deadline n
      → ((k : ℕ) → suc n ≤ k → k < last → Passed rounds pid deadline k)
      → (k : ℕ) → n ≤ k
      → k < last
      → Passed rounds pid deadline k
  earlier_rounds rounds pid deadline n last here later k n≤k k<last = elim (Bool-cases (ltb n k)) [
    | inl e ↦ later k (ground arith) k<last
    | inr e ↦ subst (Passed rounds pid deadline) (ground arith) here
  ]

  Waited-later :
      (rounds : ℕ → WaitRound) (pid deadline n : ℕ) (answer : Option (Result (Unit {0})))
      → Passed rounds pid deadline n
      → Waited rounds pid deadline (suc n) answer
      → Waited rounds pid deadline n answer
  Waited-later rounds pid deadline n answer here (last, n≤last, later, ending) =
      (last, omega arith, earlier_rounds rounds pid deadline n last here later, ending)

  ended_at :
      (rounds : ℕ → WaitRound) (pid deadline n : ℕ) (answer : Option (Result (Unit {0})))
      → ((((rounds n).at < deadline)
            × (is_ready codec pid (rounds n) ≡ true)
            × (answer ≡ some (done tt)))
          ⊎ ((deadline ≤ (rounds n).at) × ((err : Text) × (answer ≡ some (failed err)))))
      → Waited rounds pid deadline n answer
  ended_at rounds pid deadline n answer ending =
      (n, omega arith, (λ k n≤k k<n. absurd (omega arith)), ending)

  wait_rounds-expired :
      (rounds : ℕ → WaitRound) (pid port deadline fuel n : ℕ) (last_err : Text)
      → deadline ≤ (rounds n).at
      → wait_rounds codec rounds pid port deadline (suc fuel) n last_err ≡ some (failed last_err)
  unfolding wait_rounds
  wait_rounds-expired rounds pid port deadline fuel n last_err late = ground arith

  wait_rounds-ready :
      (rounds : ℕ → WaitRound) (pid port deadline fuel n : ℕ) (last_err : Text)
      → (rounds n).at < deadline
      → is_ready codec pid (rounds n) ≡ true
      → wait_rounds codec rounds pid port deadline (suc fuel) n last_err ≡ some (done tt)
  unfolding wait_rounds
  wait_rounds-ready rounds pid port deadline fuel n last_err early ready = rw ready (ground arith)

  wait_rounds-again :
      (rounds : ℕ → WaitRound) (pid port deadline fuel n : ℕ) (last_err : Text)
      → Passed rounds pid deadline n
      → wait_rounds codec rounds pid port deadline (suc fuel) n last_err
        ≡ wait_rounds codec rounds pid port deadline fuel
            (suc n)
            (round_error codec pid port (rounds n) last_err)
  unfolding wait_rounds
  wait_rounds-again rounds pid port deadline fuel n last_err (early, unready) =
      let in_time : ltb (rounds n).at deadline ≡ true = ground (arith, early) in
      rw (in_time, unready)
        (ap
          (λ m.
            wait_rounds codec rounds pid port deadline fuel m
              (round_error codec pid port (rounds n) last_err))
          (let next : n + 1 ≡ suc n = omega arith in next))

  wait_rounds-Waited :
      (rounds : ℕ → WaitRound) (pid port deadline fuel n : ℕ) (last_err : Text)
      → ((k : ℕ) → (rounds k).at + wait_interval ≤ (rounds (suc k)).at)
      → deadline ≤ (rounds n).at + fuel * wait_interval
      → Waited rounds pid deadline n
          (wait_rounds codec rounds pid port deadline (suc fuel) n last_err)
  wait_rounds-Waited rounds pid port deadline zero n last_err paced enough =
      ended_at rounds pid deadline n (wait_rounds codec rounds pid port deadline 1 n last_err) (
        inr (
          omega arith,
          (last_err, wait_rounds-expired rounds pid port deadline 0 n last_err (omega arith)),
        ))
  wait_rounds-Waited rounds pid port deadline (suc fuel) n last_err paced enough =
      let whole = wait_rounds codec rounds pid port deadline (suc (suc fuel)) n last_err in
      elim (Bool-cases (ltb (rounds n).at deadline)) [
        | inr late ↦ ended_at rounds pid deadline n whole (
            inr (
              ground arith,
              (
                last_err,
                wait_rounds-expired rounds pid port deadline (suc fuel) n last_err (ground arith),
              ),
            ))
        | inl early ↦ elim (Bool-cases (is_ready codec pid (rounds n))) [
          | inl ready ↦ ended_at rounds pid deadline n whole (
              inl (
                ground arith,
                ready,
                wait_rounds-ready rounds pid port deadline (suc fuel) n last_err (ground arith)
                    ready,
              ))
          | inr unready ↦
              let here : Passed rounds pid deadline n = (ground arith, unready) in
              Waited-later rounds pid deadline n whole here (
                rw (wait_rounds-again rounds pid port deadline (suc fuel) n last_err here) (
                  wait_rounds-Waited rounds pid port deadline fuel (suc n)
                    (round_error codec pid port (rounds n) last_err) paced
                    (let next = paced n in ground arith)))
        ]
      ]

  -- The wait for an agent always ends: where its rounds are at least the 250 ms of the sleep apart
  -- and start no earlier than the wait, the fuel suffices. The answer is a success at the first
  -- round before the deadline that finds the agent on a port that is not another process's, and an
  -- error where every round before the deadline finds none.
  pub wait_for_openprofiler_agent-Waited :
      (rounds : ℕ → WaitRound) (now timeout pid port : ℕ)
      → Paced now rounds
      → Waited rounds pid
          (now + timeout)
          0
          (wait_for_openprofiler_agent codec rounds now timeout pid port)
  unfolding wait_for_openprofiler_agent
  wait_for_openprofiler_agent-Waited rounds now timeout pid port (from, paced) =
      wait_rounds-Waited rounds pid port (now + timeout) (timeout / wait_interval + 1) 0
        (codes "agent was not reachable") paced (omega (arith, from))
