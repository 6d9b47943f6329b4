-- ===== src/Agent/Snapshot/Parents.antt =====
-- crates/jvmti-agent/src/lib.rs: how the lines of the table of allocation sites refer to each other.
use oprofiler.Base.{
  if◌then◌else◌, none, ltb, Option, ℕ, ◌+◌, ◌-◌, ◌<◌, ◌≡◌, ℤ, pos, negsuc, List, [], ◌∷◌, some,
  length, take,
}
use oprofiler.Base.Text.{Text, text_eq}
use oprofiler.Agent.Allocations.{allocation_path_key}
use oprofiler.Agent.Snapshot.{SiteLine, or_minus_one}

-- The parent's number is smaller than the line's own, or there is no parent.
abbrev pub IsEarlier : ℤ → ℕ → Type 0
IsEarlier (pos p) id = p < id
IsEarlier (negsuc n) id = n ≡ 0

-- The lines carry consecutive numbers from `id` on, and each names an earlier line as its parent.
abbrev pub AreNumbered : ℕ → List SiteLine → Type 0
AreNumbered id [] = Unit {0}
AreNumbered id (line ∷ rest) =
    (line.id ≡ id) × IsEarlier line.parent_id id × AreNumbered (id + 1) rest

-- All the numbers in a map are below a bound.
abbrev IsBelow : ℕ → List (Text × ℕ) → Type 0
IsBelow n [] = Unit {0}
IsBelow n ((key, id) ∷ rest) = (id < n) × IsBelow n rest

-- The number of the newest line whose path has a key.
unfoldable pub newest_with : Text → List SiteLine → Option ℕ
newest_with key [] = none
newest_with key (line ∷ before) =
    if text_eq (allocation_path_key line.site.path) key
    then some line.id
    else newest_with key before

-- The number of the newest line before whose path is a path without its last frame; -1 where there is
-- none, or the path has one frame only.
abbrev pub parent_line : List SiteLine → List ℕ → ℤ
parent_line before path =
    if ltb 1 (length path)
    then or_minus_one (newest_with (allocation_path_key (take (length path - 1) path)) before)
    else negsuc 0

-- Every line names its parent among the lines before it, which are given with the newest first.
abbrev pub HaveParents : List SiteLine → List SiteLine → Type 0
HaveParents before [] = Unit {0}
HaveParents before (line ∷ rest) =
    (line.parent_id ≡ parent_line before line.site.path) × HaveParents (line ∷ before) rest
