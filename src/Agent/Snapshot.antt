-- ===== src/Agent/Snapshot.antt =====
-- jvmti-agent/src/lib.rs: the table of allocation sites, one line to a site, parents before children.
pub mod Parents
use oprofiler.Base.{
  ℕ, suc, ◌+◌, ◌-◌, Bool, false, ◌&&◌, ◌||◌, ℤ, pos, negsuc, List, [], ◌∷◌, Option, none, some,
  length, take, ltb, ◌==◌, if◌then◌else◌,
}
use oprofiler.Base.Text.{Text, text_eq, to_decimal, join}
use oprofiler.Base.Maps.{lookup, insert}
use oprofiler.Base.Sort.{sort_by}
use oprofiler.Agent.{AgentState, NativeAllocationStats}
use oprofiler.Agent.Allocations.{allocation_path_key, tsv_clean}

-- A line of the table before it is printed.
pub record SiteLine : Type 0 where
  pub id : ℕ
  pub parent_id : ℤ
  pub site : NativeAllocationStats

abbrev pub shorter_or_bigger : NativeAllocationStats → NativeAllocationStats → Bool
shorter_or_bigger a b =
    ltb (length a.path) (length b.path)
    || (length a.path == length b.path && ltb b.allocated_size a.allocated_size)

abbrev pub or_minus_one : Option ℕ → ℤ
or_minus_one none = negsuc 0
or_minus_one (some id) = pos id

unfoldable pub parent_of : List (Text × ℕ) → List ℕ → ℤ
parent_of id_by_path path =
    if ltb 1 (length path)
    then or_minus_one
        (lookup text_eq (allocation_path_key (take (length path - 1) path)) id_by_path)
    else negsuc 0

-- The loop over the sorted rows; `id` is the number of lines so far.
unfoldable pub number_sites : ℕ → List (Text × ℕ) → List NativeAllocationStats → List SiteLine
unfolding parent_of
number_sites id id_by_path [] = []
number_sites id id_by_path (row ∷ rest) =
    record { id = id; parent_id = parent_of id_by_path row.path; site = row }
    ∷ number_sites (id + 1) (insert text_eq (allocation_path_key row.path) id id_by_path) rest

abbrev pub sites : List (Text × NativeAllocationStats) → List NativeAllocationStats
sites [] = []
sites ((key, st) ∷ rest) = st ∷ sites rest

unfoldable pub allocation_sites : AgentState → List SiteLine
unfolding number_sites
allocation_sites s = number_sites 0 [] (sort_by shorter_or_bigger (sites s.allocations))

abbrev int_text : ℤ → Text
int_text (pos n) = to_decimal n
int_text (negsuc n) = b'-' ∷ to_decimal (suc n)

unfoldable pub site_text : SiteLine → Text
site_text line = join (9 ∷ []) (
    to_decimal line.id
    ∷ int_text line.parent_id
    ∷ tsv_clean line.site.method.class_name
    ∷ tsv_clean line.site.method.method_name
    ∷ tsv_clean line.site.method.method_descriptor
    ∷ tsv_clean line.site.allocated_type
    ∷ to_decimal line.site.allocated_size
    ∷ to_decimal line.site.instance_count
    ∷ [])

abbrev texts : List SiteLine → List Text
texts [] = []
texts (line ∷ rest) = site_text line ∷ texts rest

-- The flag that keeps allocation events out is down again when the table has been made.
unfoldable pub allocation_hotspots_tsv : AgentState → Text × AgentState
unfolding allocation_sites site_text
allocation_hotspots_tsv s =
    (join (10 ∷ []) (texts (allocation_sites s)), record s { snapshot_in_progress = false })

unfoldable pub reset_native_allocation_hotspots : AgentState → AgentState
reset_native_allocation_hotspots s = record s { allocations = [] }
