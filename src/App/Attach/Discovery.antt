-- ===== src/App/Attach/Discovery.antt =====
-- app.rs: the search for an agent that already listens in the process.
pub mod Candidates
use oprofiler.Base.{
  List, [], ◌∷◌, true, false, none, some, ℕ, Result, set, Bool, ◌==◌, position, get_or, leb, done,
  ◌>>=◌, Option, ◌&&◌, ltb, failed, find_first, keep, ◌++◌,
}
use oprofiler.Base.Sort.{sort_by}
use oprofiler.App.Attach.Paths.{dedup}
use oprofiler.Protocol.Client.{Codec, Connection, client_get_cpu_data}

-- `swap(0, idx)` of the preferred port's place.
unfoldable pub swap_first : ℕ → List ℕ → List ℕ
swap_first i [] = []
swap_first i (x ∷ xs) = set (set (x ∷ xs) i x) 0 (get_or (x ∷ xs) i x)

abbrev in_agent_range : ℕ → Bool
in_agent_range port = leb 8840 port && leb port 8999

-- The ports in their order before the preferred one is put first.
unfoldable pub sorted_candidates : List ℕ → ℕ → List ℕ
unfolding dedup
sorted_candidates pid_ports preferred_port =
    dedup (λ a b. a == b) (sort_by ltb (keep in_agent_range pid_ports ++ preferred_port ∷ []))

unfoldable pub discovery_candidates : List ℕ → ℕ → List ℕ
unfolding sorted_candidates swap_first
discovery_candidates pid_ports preferred_port =
    let candidates = sorted_candidates pid_ports preferred_port in
    elim (position (λ port. port == preferred_port) candidates) [
      | none ↦ candidates
      | some i ↦ swap_first i candidates
    ]

abbrev pub is_done {ℓ} : {A : Type ℓ} → Result A → Bool
is_done (done a) = true
is_done (failed e) = false

module _ {F : Type 0} (codec : Codec F) where
  -- Whether an agent answers on a connection, if there is one.
  unfoldable pub answers_cpu_data : Result Connection → Result (Unit {0})
  answers_cpu_data connected = connected >>= λ c. (client_get_cpu_data codec c).0 >>= λ _. done tt

  -- `connect` is what connecting to a port gives.
  unfoldable pub discover_openprofiler_agent_port : (ℕ → Result Connection) → List ℕ → ℕ → Option ℕ
  unfolding discovery_candidates answers_cpu_data
  discover_openprofiler_agent_port connect pid_ports preferred_port =
      find_first (λ port. is_done (answers_cpu_data (connect port)))
        (discovery_candidates pid_ports preferred_port)
