-- ===== src/Tests/Allocations.antt =====
-- Tables of allocation rows: one with its parents first, and one that runs in a circle.
use oprofiler.Base.{ℕ, ◌≡◌, refl, arith, ℤ, pos, List, [], ◌∷◌, Option, none, some}
use oprofiler.Base.Text.{codes}
use oprofiler.Tests.Values.{whole_host, clock}
use oprofiler.Model.Rows.{AllocationHotSpotRow}
use oprofiler.App.State.{App, new}
use oprofiler.App.Rows.{allocation_hotspot_rows, listed_rows}
use oprofiler.App.Rows.Listed.{listed_rows-ends}

abbrev allocation : ℕ → Option ℤ → AllocationHotSpotRow
allocation id parent = record {
  node_id = pos id;
  parent_id = parent;
  depth = 0;
  name = codes "shop.Cart.add";
  allocated_type = codes "int[]";
  bytes = 64;
  allocations = 2;
}

-- The view of a table in which the rows 0 and 1 are expanded.
abbrev opened : List AllocationHotSpotRow → App ℕ
opened rows = record (new whole_host (clock 100)) {
  memory = record (new whole_host (clock 100)).memory {
    allocation_hotspots = rows;
    expanded_hotspots = pos 0 ∷ pos 1 ∷ [];
  };
}

abbrev nested : List AllocationHotSpotRow
nested = allocation 0 none ∷ allocation 1 (some (pos 0)) ∷ allocation 2 (some (pos 1)) ∷ []

listed_rows-ends_example :
    (rows : List AllocationHotSpotRow) × (listed_rows whole_host (opened nested) ≡ some rows)
unfolding new allocation_hotspot_rows
listed_rows-ends_example = listed_rows-ends whole_host (opened nested) (
  (0, (refl, (omega arith, tt))),
  ((1, (refl, (omega arith, omega arith))), ((2, (refl, (omega arith, omega arith))), tt)),
)

nested_is_listed : listed_rows whole_host (opened nested) ≡ some nested
unfolding listed_rows new oprofiler.Base.Maps.lookup
    oprofiler.App.Rows.allocation_children_by_parent oprofiler.Base.Maps.insert
    oprofiler.App.Rows.same_id oprofiler.Base.Sort.sort_by oprofiler.Base.Maps.member
nested_is_listed = refl

-- A row that is its own parent, under a root of the same number.
circle_is_not_listed :
    listed_rows whole_host (opened (allocation 1 none ∷ allocation 1 (some (pos 1)) ∷ [])) ≡ none
unfolding listed_rows new oprofiler.Base.Maps.lookup
    oprofiler.App.Rows.allocation_children_by_parent oprofiler.Base.Maps.insert
    oprofiler.App.Rows.same_id oprofiler.Base.Sort.sort_by oprofiler.Base.Maps.member
circle_is_not_listed = refl
