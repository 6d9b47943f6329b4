-- ===== src/App/Attach.antt =====
-- app.rs: what is instrumented in a JVM, and which port and files the agent is attached with.
pub mod Choice
pub mod Paths
pub mod Discovery
pub mod Start
use oprofiler.Base.{
  ℕ, zero, suc, ◌+◌, ◌-◌, Bool, false, not, ◌&&◌, ◌||◌, List, [], ◌∷◌, Option, none, some, reverse,
  length, get_or, is_empty, any_of, leb, ◌==◌, if◌then◌else◌, take, pop_back,
}
use oprofiler.Base.Text.{
  Text, codes, text_eq, starts_with, ends_with, contains_text, trim, replace_char, split_char, join,
}

-- `trim_end_matches` of a text: its copies at the end are dropped, each of which has at least one
-- character, so the length of the text bounds the rounds.
unfoldable pub trim_end_rounds : ℕ → Text → Text → Text
trim_end_rounds zero suffix s = s
trim_end_rounds (suc rounds) suffix s =
    let shorter = trim_end_rounds rounds suffix (take (length s - length suffix) s) in
    if ends_with s suffix then shorter else s

unfoldable pub trim_end_text : Text → Text → Text
unfolding trim_end_rounds
trim_end_text suffix s = trim_end_rounds (length s) suffix s

abbrev library_prefixes : List Text
library_prefixes =
    codes "java."
    ∷ codes "javax."
    ∷ codes "jdk."
    ∷ codes "sun."
    ∷ codes "com.sun."
    ∷ codes "org.apache."
    ∷ codes "org.springframework."
    ∷ codes "com.google."
    ∷ []

-- The package of the class named last in a path, unless it is a library's.
unfoldable pub package_of : Text → Option Text
package_of class_name =
    let parts = split_char b'.' class_name in
    let package_name = join (codes ".") (pop_back parts) in
    if leb (length parts) 1
    then none
    else if any_of (starts_with package_name) library_prefixes
    then none
    else some package_name

unfoldable pub default_instrument_include : Text → Option Text
unfolding package_of trim_end_text
default_instrument_include main_class =
    let normalized = replace_char 92 b'/' (trim_end_text (codes ".jar") (trim main_class)) in
    if is_empty normalized
      || text_eq normalized (codes "<unknown>")
      || ends_with normalized (codes "/java")
      || ends_with normalized (codes "/javaw")
    then none
    else if contains_text normalized (codes "/") && not (contains_text normalized (codes "."))
    then none
    else package_of (get_or (reverse (split_char b'/' normalized)) 0 normalized)

-- The state of the host's ports, as the operating system reports it: who listens, and what can be
-- bound on both loopback addresses.
pub record Ports : Type 0 where
  pub owner_pids : ℕ → List ℕ
  pub bind_v4 : ℕ → Bool
  pub bind_v6 : ℕ → Bool

unfoldable pub is_empty_or_contains : List ℕ → ℕ → Bool
is_empty_or_contains pids pid = is_empty pids || any_of (λ p. p == pid) pids

module _ (ports : Ports) where
  unfoldable pub can_bind_local_port : ℕ → Bool
  can_bind_local_port port = ports.bind_v4 port && ports.bind_v6 port

  unfoldable pub port_is_usable_for_attach : ℕ → ℕ → Bool
  unfolding can_bind_local_port
  port_is_usable_for_attach pid port =
      let owners = ports.owner_pids port in
      if any_of (λ owner. not (owner == pid)) owners
      then false
      else is_empty owners && can_bind_local_port port

  -- The first usable port of the next `count` ports from `port` on.
  unfoldable pub find_port : ℕ → ℕ → ℕ → Option ℕ
  find_port pid zero port = none
  find_port pid (suc count) port =
      let later = find_port pid count (port + 1) in
      if port_is_usable_for_attach pid port then some port else later

  -- The preferred port, or the first of 8849..=8999.
  unfoldable pub select_attach_port : ℕ → ℕ → Option ℕ
  unfolding find_port port_is_usable_for_attach
  select_attach_port pid preferred_port =
      if port_is_usable_for_attach pid preferred_port
      then some preferred_port
      else find_port pid 151 8849
