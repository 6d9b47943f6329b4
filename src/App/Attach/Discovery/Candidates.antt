-- ===== src/App/Attach/Discovery/Candidates.antt =====
-- app.rs: which ports are asked, and in what order, in the search for an agent.
use oprofiler.Base.{
  ℕ, zero, suc, ◌≡◌, inl, inr, List, [], ◌∷◌, ◌++◌, true, false, none, some, Option, Bool,
  Bool-cases, Option-cases, if◌then◌else◌, refl, ap, sym, ◌∙◌, arith, keep, set, get_or, position,
  ltb, ◌==◌, find_first, any_of, any_of-append, ◌||◌, ◌&&◌, Result, find_first-found,
}
use oprofiler.Base.Sort.{sort_by, sort_by-perm}
use mathlib.Core.Bool.{Bool-set, true≢false}
use mathlib.Core.Logic.{∥∥₁_elim}
use mathlib.Core.List.{Perm, Permᴰ}
use oprofiler.App.Attach.Paths.{dedup, dedup_from}
use oprofiler.App.Attach.Discovery.{
  swap_first, in_agent_range, sorted_candidates, discovery_candidates, is_done, answers_cpu_data,
  discover_openprofiler_agent_port,
}
use oprofiler.Protocol.Client.{Codec, Connection}
use mathlib.Core.List.Perm

-- `contains`.
abbrev pub holds_port : ℕ → List ℕ → Bool
holds_port port = any_of (λ p. p == port)

||-swap : (a b c : Bool) → (a || (b || c)) ≡ (b || (a || c))
||-swap true true c = refl
||-swap true false c = refl
||-swap false b c = refl

||-twice : (a b : Bool) → (a || b) ≡ (a || (a || b))
||-twice true b = refl
||-twice false b = refl

||-last : (a b : Bool) → (a || (b || false)) ≡ (b || a)
||-last true true = refl
||-last true false = refl
||-last false true = refl
||-last false false = refl

||-guarded :
    (here p rest : Bool) → (here ≡ true → p ≡ true) → (here || (p && rest)) ≡ (p && (here || rest))
||-guarded true p rest h = rw (h refl) refl
||-guarded false p rest h = refl

&&-skip : (here p rest : Bool) → (here ≡ true → p ≡ false) → (p && rest) ≡ (p && (here || rest))
&&-skip true p rest h = rw (h refl) refl
&&-skip false p rest h = refl

&&-false : (p : Bool) → false ≡ (p && false)
&&-false true = refl
&&-false false = refl

swapped-perm {ℓ} :
    {A : Type ℓ} (i : ℕ) (x : A) (xs : List A) → Perm (get_or xs i x ∷ set xs i x) (x ∷ xs)
swapped-perm i x [] = Perm.refl (x ∷ [])
swapped-perm zero x (y ∷ ys) = Perm.swap x y ys
swapped-perm (suc i) x (y ∷ ys) =
    Perm.trans (Perm.swap y (get_or ys i x) (set ys i x))
      (Perm.trans (Perm.cons y (swapped-perm i x ys)) (Perm.swap x y ys))

swap_first-perm : (i : ℕ) (xs : List ℕ) → Perm (swap_first i xs) xs
unfolding swap_first
swap_first-perm i [] = Perm.refl []
swap_first-perm zero (x ∷ xs) = Perm.refl (x ∷ xs)
swap_first-perm (suc i) (x ∷ xs) = swapped-perm i x xs

holds-permᴰ : (port : ℕ) {xs ys : List ℕ} → Permᴰ xs ys → holds_port port xs ≡ holds_port port ys
holds-permᴰ port Permᴰ.nil = refl
holds-permᴰ port (Permᴰ.cons {b = b} e d) =
    rw e (ap (λ found. (b == port) || found) (holds-permᴰ port d))
holds-permᴰ port (Permᴰ.swap {a} {b} {l = l} e e') =
    rw (sym e, sym e') (||-swap (a == port) (b == port) (holds_port port l))
holds-permᴰ port (Permᴰ.trans d d') = holds-permᴰ port d ∙ holds-permᴰ port d'

-- The order of a list does not matter for what it contains.
holds-perm : (port : ℕ) {xs ys : List ℕ} → Perm xs ys → holds_port port xs ≡ holds_port port ys
holds-perm port {xs} {ys} p =
    ∥∥₁_elim p (Bool-set (holds_port port xs) (holds_port port ys)) (holds-permᴰ port)

holds-dedup_from :
    (port last : ℕ) (xs : List ℕ)
    → holds_port port (last ∷ dedup_from (λ a b. a == b) last xs) ≡ holds_port port (last ∷ xs)
unfolding dedup_from
holds-dedup_from port last [] = refl
holds-dedup_from port last (y ∷ ys) = elim (Bool-cases (y == last)) [
  | inl e ↦
      let same : y ≡ last = ground (arith, e) in
      rw e (holds-dedup_from port last ys ∙ rw same (||-twice (last == port) (holds_port port ys)))
  | inr e ↦ rw e (ap (λ found. (last == port) || found) (holds-dedup_from port y ys))
]

holds-dedup :
    (port : ℕ) (xs : List ℕ) → holds_port port (dedup (λ a b. a == b) xs) ≡ holds_port port xs
unfolding dedup
holds-dedup port [] = refl
holds-dedup port (x ∷ xs) = holds-dedup_from port x xs

holds-keep :
    (port : ℕ) (p : ℕ → Bool) (xs : List ℕ)
    → holds_port port (keep p xs) ≡ (p port && holds_port port xs)
holds-keep port p [] = &&-false (p port)
holds-keep port p (x ∷ xs) = elim (Bool-cases (p x)) [
  | inl e ↦ rw e (
      ap (λ found. (x == port) || found) (holds-keep port p xs)
      ∙ ||-guarded (x == port) (p port) (holds_port port xs)
          (λ here. let same : x ≡ port = ground (arith, here) in sym (ap p same) ∙ e))
  | inr e ↦ rw e (
      holds-keep port p xs
      ∙ &&-skip (x == port) (p port) (holds_port port xs)
          (λ here. let same : x ≡ port = ground (arith, here) in sym (ap p same) ∙ e))
]

-- The ports that are asked: the preferred one, and those of the process that are in the agent's range.
abbrev pub is_asked : List ℕ → ℕ → ℕ → Bool
is_asked pid_ports preferred_port port =
    (preferred_port == port) || (in_agent_range port && holds_port port pid_ports)

holds-sorted_candidates :
    (port : ℕ) (pid_ports : List ℕ) (preferred_port : ℕ)
    → holds_port port (sorted_candidates pid_ports preferred_port)
      ≡ is_asked pid_ports preferred_port port
unfolding sorted_candidates
holds-sorted_candidates port pid_ports preferred_port =
    let kept = keep in_agent_range pid_ports in
    holds-dedup port (sort_by ltb (kept ++ preferred_port ∷ []))
    ∙ (holds-perm port (sort_by-perm ltb (kept ++ preferred_port ∷ []))
        ∙ (any_of-append (λ p. p == port) kept (preferred_port ∷ [])
            ∙ rw (holds-keep port in_agent_range pid_ports) (
                ||-last (in_agent_range port && holds_port port pid_ports)
                  (preferred_port == port))))

-- The candidates are the preferred port and the process's ports in the range, and no others.
holds-discovery_candidates :
    (port : ℕ) (pid_ports : List ℕ) (preferred_port : ℕ)
    → holds_port port (discovery_candidates pid_ports preferred_port)
      ≡ is_asked pid_ports preferred_port port
unfolding discovery_candidates
holds-discovery_candidates port pid_ports preferred_port =
    let sorted = sorted_candidates pid_ports preferred_port in
    elim (Option-cases (position (λ p. p == preferred_port) sorted)) [
      | inl e ↦ rw (e, discovery_candidates) (holds-sorted_candidates port pid_ports preferred_port)
      | inr (i, e) ↦
          rw (e, discovery_candidates)
            (holds-perm port (swap_first-perm i sorted)
              ∙ holds-sorted_candidates port pid_ports preferred_port)
    ]

position-none {ℓ} :
    {A : Type ℓ} (p : A → Bool) (xs : List A) → position p xs ≡ none → any_of p xs ≡ false
position-none p [] h = refl
position-none p (x ∷ xs) h = elim (Option-cases (position p xs)) [
  | inl e ↦ ground (arith, h, position-none p xs e)
  | inr (i, e) ↦ absurd (ground (arith, h, e))
]

get_or-position {ℓ} :
    {A : Type ℓ} (p : A → Bool) (xs : List A) (i : ℕ) (d : A)
    → position p xs ≡ some i
    → p (get_or xs i d) ≡ true
get_or-position p [] i d h = absurd (ground arith)
get_or-position p (x ∷ xs) zero d h = elim (Option-cases (position p xs)) [
  | inl e ↦ ground (arith, h, e)
  | inr (j, e) ↦ ground (arith, h, e)
]
get_or-position p (x ∷ xs) (suc i) d h = elim (Option-cases (position p xs)) [
  | inl e ↦ absurd (ground (arith, h, e))
  | inr (j, e) ↦
      get_or-position p xs i d (e ∙ ap some (let same : j ≡ i = ground (arith, h, e) in same))
]

is_asked-preferred :
    (pid_ports : List ℕ) (preferred_port : ℕ)
    → is_asked pid_ports preferred_port preferred_port ≡ true
is_asked-preferred pid_ports preferred_port =
    ap (λ b. b || (in_agent_range preferred_port && holds_port preferred_port pid_ports))
      (let same : (preferred_port == preferred_port) ≡ true = ground arith in same)

position-first :
    (port i : ℕ) (xs : List ℕ)
    → position (λ p. p == port) xs ≡ some i
    → (rest : List ℕ) × (swap_first i xs ≡ port ∷ rest)
unfolding swap_first
position-first port i [] h = absurd (ground arith)
position-first port zero (x ∷ xs) h =
    let found = get_or-position (λ p. p == port) (x ∷ xs) 0 x h in
    let same : x ≡ port = ground (arith, found) in (xs, ap (λ y. y ∷ xs) same)
position-first port (suc i) (x ∷ xs) h =
    let found = get_or-position (λ p. p == port) (x ∷ xs) (suc i) x h in
    let same : get_or xs i x ≡ port = ground (arith, found) in
    (set xs i x, ap (λ y. y ∷ set xs i x) same)

-- The preferred port is the first.
discovery_candidates-first :
    (pid_ports : List ℕ) (preferred_port : ℕ)
    → (rest : List ℕ) × (discovery_candidates pid_ports preferred_port ≡ preferred_port ∷ rest)
unfolding discovery_candidates
discovery_candidates-first pid_ports preferred_port =
    let sorted = sorted_candidates pid_ports preferred_port in
    elim (Option-cases (position (λ p. p == preferred_port) sorted)) [
      | inl e ↦ absurd (
          true≢false (
            sym (
              holds-sorted_candidates preferred_port pid_ports preferred_port
              ∙ is_asked-preferred pid_ports preferred_port)
            ∙ position-none (λ p. p == preferred_port) sorted e))
      | inr (i, e) ↦ rw (e, discovery_candidates) (position-first preferred_port i sorted e)
    ]

find_first-none :
    (p : ℕ → Bool) (xs : List ℕ) (port : ℕ)
    → find_first p xs ≡ none
    → holds_port port xs ≡ true
    → p port ≡ false
find_first-none p [] port h held = absurd (ground arith)
find_first-none p (x ∷ xs) port h held = elim (Bool-cases (p x)) [
  | inl e ↦ absurd (ground (arith, h, e))
  | inr e ↦ elim (Bool-cases (x == port)) [
    | inl here ↦ let same : x ≡ port = ground (arith, here) in sym (ap p same) ∙ e
    | inr there ↦ find_first-none p xs port (ground (arith, h, e)) (ground (arith, held, there))
  ]
]

find_first-holds :
    (p : ℕ → Bool) (xs : List ℕ) (port : ℕ)
    → find_first p xs ≡ some port
    → holds_port port xs ≡ true
find_first-holds p [] port h = absurd (ground arith)
find_first-holds p (x ∷ xs) port h = elim (Bool-cases (p x)) [
  | inl e ↦ let same : x ≡ port = ground (arith, h, e) in ground (arith, same)
  | inr e ↦ let later = find_first-holds p xs port (ground (arith, h, e)) in ground (arith, later)
]

module _ {F : Type 0} (codec : Codec F) where
  -- What a search among the process's ports means: the preferred port if an agent answers there, and
  -- else one of the asked ports on which one answers; none only if none of them answers.
  abbrev pub Discovered : (ℕ → Result Connection) → List ℕ → ℕ → Option ℕ → Type 0
  Discovered connect pid_ports preferred_port found =
      (is_done (answers_cpu_data codec (connect preferred_port)) ≡ true
        → found ≡ some preferred_port)
      × (((port : ℕ)
            → found ≡ some port
            → (is_done (answers_cpu_data codec (connect port)) ≡ true)
              × (is_asked pid_ports preferred_port port ≡ true))
          × ((port : ℕ)
              → found ≡ none
              → is_asked pid_ports preferred_port port ≡ true
              → is_done (answers_cpu_data codec (connect port)) ≡ false))

  -- The search for an agent asks the preferred port first. It finds a port only if an agent answers
  -- there and the port is the preferred one or one of the process's in the agent's range, and it
  -- finds none only if no agent answers on any of these.
  pub discover_openprofiler_agent_port-Discovered :
      (connect : ℕ → Result Connection) (pid_ports : List ℕ) (preferred_port : ℕ)
      → Discovered connect pid_ports preferred_port
          (discover_openprofiler_agent_port codec connect pid_ports preferred_port)
  unfolding discover_openprofiler_agent_port
  discover_openprofiler_agent_port-Discovered connect pid_ports preferred_port =
      let answers = λ (port : ℕ). is_done (answers_cpu_data codec (connect port)) in
      let candidates = discovery_candidates pid_ports preferred_port in
      let (rest, first) = discovery_candidates-first pid_ports preferred_port in
      (
        λ here.
            ap (find_first answers) first
            ∙ ap (λ b. if b then some preferred_port else find_first answers rest) here,
        (
          λ port found. (
            find_first-found answers candidates port found,
            sym (holds-discovery_candidates port pid_ports preferred_port)
                ∙ find_first-holds answers candidates port found,
          ),
          λ port none_found asked.
              find_first-none answers candidates port none_found
                (holds-discovery_candidates port pid_ports preferred_port ∙ asked),
        ),
      )
