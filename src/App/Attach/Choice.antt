-- ===== src/App/Attach/Choice.antt =====
-- app.rs: which port is chosen for the agent.
use oprofiler.Base.{
  ℕ, zero, suc, ◌+◌, ◌≤◌, ◌<◌, ◌≡◌, ◌⊎◌, inl, inr, true, false, Option, none, some, arith,
  Bool-cases, subst,
}
use oprofiler.App.Attach.{Ports, port_is_usable_for_attach, find_port, select_attach_port}

-- The port is usable and every earlier one of the range from `first` on is not.
abbrev pub IsFirstUsable : Ports → ℕ → ℕ → ℕ → Type 0
IsFirstUsable ports pid first port =
    (first ≤ port)
    × (port_is_usable_for_attach ports pid port ≡ true)
    × ((q : ℕ) → first ≤ q → q < port → port_is_usable_for_attach ports pid q ≡ false)

-- What a search of `count` ports from `first` on may answer.
abbrev pub Found : Ports → ℕ → ℕ → ℕ → Option ℕ → Type 0
Found ports pid first count none =
    (q : ℕ) → first ≤ q → q < first + count → port_is_usable_for_attach ports pid q ≡ false
Found ports pid first count (some port) =
    IsFirstUsable ports pid first port × (port < first + count)

eq_or_lt : (m n : ℕ) → m ≤ n → (m ≡ n) ⊎ (m < n)
eq_or_lt m n h = ground arith

-- What the search answers from the next port on, it answers from a port that is not usable.
later-Found :
    (ports : Ports) (pid first count : ℕ)
    → port_is_usable_for_attach ports pid first ≡ false
    → (answer : Option ℕ) → Found ports pid (first + 1) count answer
    → Found ports pid first (suc count) answer
later-Found ports pid first count taken none found = λ q from below. elim (eq_or_lt first q from) [
  | inl e ↦ subst (λ p. port_is_usable_for_attach ports pid p ≡ false) e taken
  | inr lt ↦ found q (omega arith) (omega arith)
]
later-Found ports pid first count taken (some port) ((from, usable, before), inside) = (
  (
    omega arith,
    usable,
    λ q start below. elim (eq_or_lt first q start) [
      | inl e ↦ subst (λ p. port_is_usable_for_attach ports pid p ≡ false) e taken
      | inr lt ↦ before q (omega arith) below
    ],
  ),
  omega arith,
)

pub find_port-Found :
    (ports : Ports) (pid count first : ℕ)
    → Found ports pid first count (find_port ports pid count first)
unfolding find_port
find_port-Found ports pid zero first = λ q from below. absurd (omega arith)
find_port-Found ports pid (suc count) first =
    elim (Bool-cases (port_is_usable_for_attach ports pid first)) [
      | inl usable ↦
          rw usable ((omega arith, usable, λ q from below. absurd (omega arith)), omega arith)
      | inr taken ↦ rw taken (
          later-Found ports pid first count taken (find_port ports pid count (first + 1))
            (find_port-Found ports pid count (first + 1)))
    ]

-- The preferred port is chosen if it is usable; else the first usable port of 8849 to 8999, and
-- none only if none of them is usable.
pub select_attach_port-Found :
    (ports : Ports) (pid preferred : ℕ)
    → (port_is_usable_for_attach ports pid preferred ≡ true
        → select_attach_port ports pid preferred ≡ some preferred)
      × (port_is_usable_for_attach ports pid preferred ≡ false
          → Found ports pid 8849 151 (select_attach_port ports pid preferred))
unfolding select_attach_port
select_attach_port-Found ports pid preferred =
    (λ usable. ground arith, λ taken. rw taken (find_port-Found ports pid 151 8849))
